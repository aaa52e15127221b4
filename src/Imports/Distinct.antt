-- ===== src/Imports/Distinct.antt =====
-- Lists of paths without repetition: what pushing and removing do, and how long they can be.
use plant_lang.Prelude.{
  times-get_or, ℕ, ◌+◌, ◌≤◌, ◌<◌, ◌≡◌, refl, sym, ap, ◌∙◌, true, false, List, [], ◌∷◌, ◌++◌, none,
  arith, length, get_or, Text, str_eq_iff, str_eq_refl, Bool-cases, inl, inr, times, to_nat,
  times-append, find_index, erase_idx, times-append, times-erase_idx, find_index-times,
  find_index-Found, Option-cases,
}
use plant_lang.Imports.{is_text, imp_has, imp_remove}

abbrev pub count : Text → List Text → ℕ
count x l = times (is_text x) l

pub imp_has-count : (l : List Text) (x : Text) → imp_has l x ≡ false → count x l ≡ 0
unfolding imp_has
imp_has-count l x h = elim (Option-cases (find_index (is_text x) l)) [
  | inl e ↦ find_index-times (is_text x) l e
  | inr (i, e) ↦ let t : imp_has l x ≡ true = rw (e, imp_has) in cc
]

pub count-imp_has : (l : List Text) (x : Text) → count x l ≡ 0 → imp_has l x ≡ false
unfolding imp_has
count-imp_has l x h = elim (Option-cases (find_index (is_text x) l)) [
  | inl e ↦ rw (imp_has, e) refl
  | inr (i, e) ↦
      let f = find_index-Found (is_text x) [] l i e in
      let t = times-get_or (is_text x) [] l i f.below f.hit in absurd (omega arith)
]

is_text_self : (x : Text) → is_text x x ≡ true
is_text_self x = str_eq_refl x

pub count-push :
    (x y : Text) (l : List Text) → count x (l ++ y ∷ []) ≡ count x l + to_nat (is_text x y)
unfolding times
count-push x y l = let a = times-append (is_text x) l (y ∷ []) in omega arith

-- Removing what was pushed gives the list back.
pub imp_remove-push : (l : List Text) (x : Text) → count x l ≡ 0 → imp_remove (l ++ x ∷ []) x ≡ l
unfolding imp_remove find_index times erase_idx
imp_remove-push [] x h = rw (imp_remove, is_text_self x)
imp_remove-push (y ∷ l) x h = elim (Bool-cases (is_text x y)) [
  | inl same ↦ absurd (ground arith)
  | inr other ↦
      let h' : count x l ≡ 0 = ground arith in
      let rest = imp_remove-push l x h' in
      elim (Option-cases (find_index (is_text x) (l ++ x ∷ []))) [
        | inl e ↦ absurd (not_there l x e)
        | inr (i, e) ↦
            let r : erase_idx i (l ++ x ∷ []) ≡ l = sym (rw (imp_remove, e) refl) ∙ rest in
            rw (imp_remove, find_index, other, e) (ap (λ t. y ∷ t) r)
      ]
]
  where
    not_there : (l : List Text) (x : Text) → find_index (is_text x) (l ++ x ∷ []) ≡ none → ⊥
    not_there l x e =
        let z = find_index-times (is_text x) (l ++ x ∷ []) e in
        let p = count-push x x l in let s = ap to_nat (is_text_self x) in omega arith

size_of : (l : List Text) → times (λ t. true) l ≡ length l
unfolding times
size_of [] = refl
size_of (x ∷ l) = omega (arith, size_of l)

-- A list without repetition whose members are all in another is not longer than it.
pub pigeonhole :
    (p u : List Text)
    → ((x : Text) → count x p ≤ 1)
    → ((x : Text) → 0 < count x p → 0 < count x u)
    → length p ≤ length u
unfolding times
pigeonhole [] u once all = omega arith
pigeonhole (x ∷ p) u once all =
    let self = ap to_nat (is_text_self x) in
    let there : 0 < count x u = all x (omega arith) in
    elim (Option-cases (find_index (is_text x) u)) [
      | inl e ↦ let z = find_index-times (is_text x) u e in absurd (omega arith)
      | inr (i, e) ↦
          let f = find_index-Found (is_text x) [] u i e in
          let at : get_or u i [] ≡ x = (str_eq_iff (get_or u i []) x).0 f.hit in
          let cut : (y : Text) → count y (erase_idx i u) + to_nat (is_text y x) ≡ count y u = λ y.
            ap (λ t. count y (erase_idx i u) + to_nat (is_text y t)) (sym at)
            ∙ times-erase_idx (is_text y) [] u i f.below in
          let shorter = times-erase_idx (λ t. true) [] u i f.below in
          let a = size_of u in
          let b = size_of (erase_idx i u) in
          let rest =
            pigeonhole p (erase_idx i u) (λ y. let o = once y in omega arith)
              (λ y h.
                let o = once y in let q = all y (omega arith) in let c = cut y in omega arith) in
          omega arith
    ]
