-- ===== src/Missions/Audit/Mixing.antt =====
-- The hash of `plant_audit_hash` tells messages apart that differ in one byte.
use plant_lang.Prelude.{
  zero, suc, refl, ◌==◌, ◌∙◌, Bool-cases, inl, inr, take, ==_false, false, ==_false, Bool-cases,
  ◌∙◌, ℕ, ◌^◌, ◌<◌, ◌≡◌, ◌≢◌, sym, [], ◌∷◌, ◌++◌, Text, arith, xor_lt, fnv_cancel, xor_cancel_left,
  xor_cancel_right,
}
use Prim.Native.Nat.{suc, bit_xor}
use plant_lang.Missions.Audit.{c_str, take, audit_hash, mix, mix_all}

unfoldable pub IsBytes : Text → Type 0
IsBytes [] = Unit
IsBytes (c ∷ cs) = (c < 256) × IsBytes cs

mix_lt : (h c : ℕ) → mix h c < 2 ^ 64
unfolding mix
mix_lt h c = omega arith

mix_cancel_byte : (h c d : ℕ) → h < 2 ^ 64 → c < 2 ^ 64 → d < 2 ^ 64 → mix h c ≡ mix h d → c ≡ d
unfolding mix
mix_cancel_byte h c d i j k e =
    xor_cancel_left h c d
      (fnv_cancel (bit_xor h c) (bit_xor h d) (xor_lt 64 h c i j) (xor_lt 64 h d i k) e)

mix_cancel_state : (h k c : ℕ) → h < 2 ^ 64 → k < 2 ^ 64 → c < 2 ^ 64 → mix h c ≡ mix k c → h ≡ k
unfolding mix
mix_cancel_state h k c i j l e =
    xor_cancel_right h k c
      (fnv_cancel (bit_xor h c) (bit_xor k c) (xor_lt 64 h c i l) (xor_lt 64 k c j l) e)

-- no byte of a text ends it
unfoldable pub HasNoNul : Text → Type 0
HasNoNul [] = Unit
HasNoNul (c ∷ cs) = (c ≢ 0) × HasNoNul cs

not_nul : (c : ℕ) → (c == 0) ≡ false → c ≢ 0
not_nul c e = ground arith

pub c_str-HasNoNul : (cs : Text) → HasNoNul (c_str cs)
unfolding c_str HasNoNul
c_str-HasNoNul [] = tt
c_str-HasNoNul (c ∷ cs) = elim (Bool-cases (c == 0)) [
  | inl y ↦ rw (c_str, y) tt
  | inr n ↦ rw (c_str, n) (not_nul c n, c_str-HasNoNul cs)
]

pub take-HasNoNul : (n : ℕ) (cs : Text) → HasNoNul cs → HasNoNul (take n cs)
unfolding HasNoNul
take-HasNoNul zero cs h = tt
take-HasNoNul (suc n) [] h = tt
take-HasNoNul (suc n) (c ∷ cs) (k, h) = (k, take-HasNoNul n cs h)

-- the parts of such a text
pub HasNoNul-split :
    (xs ys : Text) (x : ℕ) → HasNoNul (xs ++ x ∷ ys) → HasNoNul xs × (x ≢ 0) × HasNoNul ys
unfolding HasNoNul
HasNoNul-split [] ys x (n, h) = (tt, n, h)
HasNoNul-split (c ∷ xs) ys x (n, h) =
    let (left, other, right) = HasNoNul-split xs ys x h in ((n, left), other, right)

mix_all-step : (h c : ℕ) (cs : Text) → c ≢ 0 → mix_all h (c ∷ cs) ≡ mix_all (mix h c) cs
unfolding mix_all
mix_all-step h c cs n = rw (mix_all, ==_false c 0 n) refl

mix_all_lt : (h : ℕ) (cs : Text) → h < 2 ^ 64 → mix_all h cs < 2 ^ 64
unfolding mix_all
mix_all_lt h [] i = i
mix_all_lt h (c ∷ cs) i = elim (Bool-cases (c == 0)) [
  | inl y ↦ rw (mix_all, y) i
  | inr n ↦ rw (mix_all, n) (mix_all_lt (mix h c) cs (mix_lt h c))
]

mix_all_cancel :
    (h k : ℕ) (cs : Text)
    → h < 2 ^ 64
    → k < 2 ^ 64
    → IsBytes cs
    → HasNoNul cs
    → mix_all h cs ≡ mix_all k cs
    → h ≡ k
unfolding mix_all IsBytes HasNoNul
mix_all_cancel h k [] i j b z e = e
mix_all_cancel h k (c ∷ cs) i j (l, b) (n, z) e = mix_cancel_state h k c i j (omega arith) (
    mix_all_cancel (mix h c) (mix k c) cs (mix_lt h c) (mix_lt k c) b z
      (sym (mix_all-step h c cs n) ∙ e ∙ mix_all-step k c cs n))

-- another byte in one place gives another hash
mix_all_differs :
    (h : ℕ) (xs ys : Text) (x y : ℕ)
    → h < 2 ^ 64
    → x < 256
    → y < 256
    → IsBytes ys
    → HasNoNul (xs ++ x ∷ ys)
    → y ≢ 0
    → x ≢ y
    → mix_all h (xs ++ x ∷ ys) ≢ mix_all h (xs ++ y ∷ ys)
unfolding HasNoNul
mix_all_differs h [] ys x y i j k b (nx, z) ny n e = n (
    mix_cancel_byte h x y i (omega arith) (omega arith) (
      mix_all_cancel (mix h x) (mix h y) ys (mix_lt h x) (mix_lt h y) b z
        (sym (mix_all-step h x ys nx) ∙ e ∙ mix_all-step h y ys ny)))
mix_all_differs h (c ∷ xs) ys x y i j k b (nc, z) ny n e =
    mix_all_differs (mix h c) xs ys x y (mix_lt h c) j k b z ny n
      (sym (mix_all-step h c (xs ++ x ∷ ys) nc) ∙ e ∙ mix_all-step h c (xs ++ y ∷ ys) nc)

pub audit_hash-differs :
    (h seq : ℕ) (kind xs ys : Text) (x y : ℕ)
    → x < 256
    → y < 256
    → IsBytes ys
    → HasNoNul (xs ++ x ∷ ys)
    → y ≢ 0
    → x ≢ y
    → audit_hash h seq kind (xs ++ y ∷ ys) ≢ audit_hash h seq kind (xs ++ x ∷ ys)
unfolding audit_hash
audit_hash-differs h seq kind xs ys x y j k b z ny n e =
    mix_all_differs (mix_all (mix h seq) kind) xs ys x y
      (mix_all_lt (mix h seq) kind (mix_lt h seq)) j k b z ny n (sym e)
