-- ===== src/Missions/Channel/Delivery.antt =====
-- What a receiver gets from a channel of SAFE, where each long text is sent once.
use mathlib.Core.Option.{none-ne-some}
use plant_lang.Prelude.{
  ◌-◌, ℕ, zero, suc, ◌≤◌, ◌<◌, ◌≡◌, ◌≢◌, ◌⊎◌, inl, inr, refl, sym, ap, ◌∙◌, subst, Bool, true,
  false, not, ◌||◌, ◌&&◌, List, [], ◌∷◌, ◌++◌, Option, none, some, ltb, leb, if◌then◌else◌, length,
  replicate, get_or, set, get_or-set_ne, get_or-append_left, get_or-append_right, length-append,
  length-set, Text, Bool-cases, arith,
}
use plant_lang.Missions.Channel.{
  Store, load, release, Channel, free_buf, cloned, adopted, then_with, send_text, safe_send,
  safe_send_big, safe_recv, ChannelCall, send, send_big, recv, read, behind, channel_run,
}

-- A mailbox with one place. A send puts its text there, in place of any other, unless the text is to
-- be copied and there is no memory; a receipt empties it.
abbrev pub sent : ℕ → Bool → Option Text → Option Text → Option Text
sent limit memory none box = box
sent limit memory (some t) box = if leb (length t) limit && not memory then box else some t

abbrev pub received : Option Text → Text
received none = []
received (some t) = t

abbrev pub payload : Store → Option ℕ → Option Text
payload st none = none
payload st (some p) = load st p

-- the texts that are received from the mailbox; `st` has the texts that the program sends
unfoldable pub mailbox : ℕ → Store → List ChannelCall → Option Text → List Text
mailbox limit st [] box = []
mailbox limit st (send m p ∷ cs) box = mailbox limit st cs (sent limit m (payload st p) box)
mailbox limit st (send_big m n ∷ cs) box =
    mailbox limit st cs (if ltb n 1 || not m then box else some (replicate n b'x'))
mailbox limit st (recv ∷ cs) box = received box ∷ mailbox limit st cs none

unfoldable pub NotIn : ℕ → List ℕ → Type 0
NotIn p [] = Unit
NotIn p (g ∷ gs) = (p ≢ g) × NotIn p gs

-- The program sends texts that it has, and a text beyond the threshold once only: then it has given
-- the text away, as those in `given` before.
unfoldable pub IsProper : ℕ → Store → List ℕ → List ChannelCall → Type 0
unfolding NotIn
IsProper limit st given [] = Unit
IsProper limit st given (send m none ∷ cs) = IsProper limit st given cs
IsProper limit st given (send m (some p) ∷ cs) =
    (t : Text) × (load st p ≡ some t)
    × NotIn p given
    × IsProper limit st (if leb (length t) limit then given else p ∷ given) cs
IsProper limit st given (send_big m n ∷ cs) = IsProper limit st given cs
IsProper limit st given (recv ∷ cs) = IsProper limit st given cs

-- the program no longer has the text at an address
abbrev Gone : Store → List ℕ → ℕ → Type 0
Gone st0 given b = (length st0 ≤ b) ⊎ (NotIn b given → ⊥)

-- What the place of a channel holds.
abbrev Place : Store → List ℕ → Channel → Store → Option Text → Type 0
Place st0 given ch st none = ch.buf ≡ none
Place st0 given ch st (some t) =
    (b : ℕ) × (ch.buf ≡ some b) × (load st b ≡ some t) × Gone st0 given b

-- A channel and a store, as the mailbox tells; the program still has what it did not give away.
record Tells (limit : ℕ) (st0 : Store) (given : List ℕ) (ch : Channel) (st : Store)
    (box : Option Text) : Type 0 where
  threshold : ch.threshold ≡ limit
  larger : length st0 ≤ length st
  kept : (a : ℕ) → a < length st0 → NotIn a given → load st a ≡ load st0 a
  place : Place st0 given ch st box

live-lt : (st : Store) (p : ℕ) (t : Text) → load st p ≡ some t → p < length st
live-lt [] p t e = absurd (none-ne-some t e)
live-lt (x ∷ st) zero t e = omega arith
live-lt (x ∷ st) (suc p) t e = let h = live-lt st p t e in omega arith

some_same : (a b : ℕ) → some a ≡ some b → a ≡ b
some_same a b e = ap (λ o. elim o [ none ↦ 0 | some n ↦ n ]) e

-- the place is not what the program still has
apart_lem :
    (st0 : Store) (given : List ℕ) (ch : Channel) (st : Store) (box : Option Text) (a : ℕ)
    → Place st0 given ch st box
    → a < length st0
    → NotIn a given
    → ch.buf ≢ some a
apart_lem st0 given ch st none a p l n e = none-ne-some a (sym p ∙ e)
apart_lem st0 given ch st (some t) a (b, at, live, gone) l n e =
    let same = some_same b a (sym at ∙ e) in
    elim gone [
      | inl beyond ↦ absurd (omega arith)
      | inr given_away ↦ absurd (given_away (subst (λ k. NotIn k given) (sym same) n))
    ]

-- nor a new address
fresh_lem :
    (st0 : Store) (given : List ℕ) (ch : Channel) (st : Store) (box : Option Text)
    → Place st0 given ch st box
    → ch.buf ≢ some (length st)
fresh_lem st0 given ch st none p e = none-ne-some (length st) (sym p ∙ e)
fresh_lem st0 given ch st (some t) (b, at, live, gone) e =
    let same = some_same b (length st) (sym at ∙ e) in
    let l = live-lt st b t live in absurd (omega arith)

-- The text in the place is freed, and no other.
record Frees (ch : Channel) (st st' : Store) : Type 0 where
  done : free_buf ch.buf st ≡ some st'
  size : length st' ≡ length st
  others : (a : ℕ) → ch.buf ≢ some a → load st' a ≡ load st a

free_buf-Frees :
    (st0 : Store) (given : List ℕ) (ch : Channel) (st st1 : Store) (box : Option Text)
    → Place st0 given ch st box
    → ((a : ℕ) → a < length st → load st1 a ≡ load st a)
    → (st2 : Store) × Frees ch st1 st2
unfolding free_buf release
free_buf-Frees st0 given ch st st1 none p g =
    (st1, record { done = rw p refl; size = refl; others = λ a n. refl })
free_buf-Frees st0 given ch st st1 (some t) (b, at, live, gone) g = (
  set st1 b none,
  record {
    done = rw (at, release, g b (live-lt st b t live) ∙ live) refl;
    size = length-set st1 b none;
    others = λ a n. get_or-set_ne st1 b a none none (λ e. n (at ∙ ap some e));
  },
)

-- a text that is put into the place
put_lem :
    (limit : ℕ) (st0 : Store) (given given' : List ℕ) (ch ch' : Channel) (st st1 : Store)
    (box : Option Text) (q : ℕ) (t : Text)
    → Tells limit st0 given ch st box
    → ((a : ℕ) → a < length st → load st1 a ≡ load st a)
    → length st ≤ length st1
    → ((a : ℕ) → NotIn a given' → NotIn a given)
    → ch'.threshold ≡ ch.threshold
    → ch'.buf ≡ some q
    → ch.buf ≢ some q
    → load st1 q ≡ some t
    → Gone st0 given' q
    → (st2 : Store) × (then_with ch' (free_buf ch.buf st1) ≡ some (ch', st2))
      × Tells limit st0 given' ch' st2 (some t)
put_lem limit st0 given given' ch ch' st st1 box q t f same more fewer th at other live gone =
    let (st2, r) = free_buf-Frees st0 given ch st st1 box f.place same in
    let large = f.larger in
    let size = r.size in
    (
      st2,
      ap (then_with ch') r.done,
      record {
        threshold = th ∙ f.threshold;
        larger = omega arith;
        kept = λ a l n.
            r.others a (apart_lem st0 given ch st box a f.place l (fewer a n))
            ∙ same a (omega arith)
            ∙ f.kept a l (fewer a n);
        place = (q, at, r.others q other ∙ live, gone);
      },
    )

-- a text at a new address
put_new :
    (limit : ℕ) (st0 : Store) (given : List ℕ) (ch ch' : Channel) (st : Store) (box : Option Text)
    (t : Text)
    → Tells limit st0 given ch st box
    → ch'.threshold ≡ ch.threshold
    → ch'.buf ≡ some (length st)
    → (st2 : Store) × (then_with ch' (free_buf ch.buf (st ++ some t ∷ [])) ≡ some (ch', st2))
      × Tells limit st0 given ch' st2 (some t)
put_new limit st0 given ch ch' st box t f th at =
    let large = f.larger in
    let len = length-append st (some t ∷ []) in
    put_lem limit st0 given given ch ch' st (st ++ some t ∷ []) box (length st) t f
      (λ a l. get_or-append_left st (some t ∷ []) a none l) (omega arith) (λ a n. n) th at
      (fresh_lem st0 given ch st box f.place)
      (get_or-append_right st (some t ∷ []) (length st) none (omega arith)
        ∙ ap (λ k. get_or (some t ∷ []) k none)
            (let z : length st - length st ≡ 0 = omega arith in z))
      (inl large)

-- A call that leaves the channel in step with the mailbox.
unfoldable Goes :
    (limit : ℕ) (st0 : Store) (given : List ℕ) (box : Option Text) (r : Option (Channel × Store))
    → Type 0
Goes limit st0 given box r =
    (ch : Channel) × (st : Store) × (r ≡ some (ch, st)) × Tells limit st0 given ch st box

send_text-Goes :
    (limit : ℕ) (st0 : Store) (given : List ℕ) (ch : Channel) (st : Store) (box : Option Text)
    (m : Bool) (p : ℕ) (t : Text)
    → Tells limit st0 given ch st box
    → load st0 p ≡ some t
    → NotIn p given
    → Goes limit st0
        (if leb (length t) limit then given else p ∷ given)
        (sent limit m (some t) box)
        (send_text m p t ch st)
unfolding send_text Goes
send_text-Goes limit st0 given ch st box m p t f e n = elim (Bool-cases (leb (length t) limit)) [
  | inl short ↦ rw (send_text, ap (leb (length t)) f.threshold ∙ short, short) (copy m)
  | inr long ↦
      rw (send_text, ap (leb (length t)) f.threshold ∙ long, long)
        (let l = live-lt st0 p t e in
          let (st2, done, f2) =
            put_lem limit st0 given (p ∷ given) ch (adopted p (length t) ch) st st box p t f
              (λ a l. refl) (omega arith) (λ a k. unfold NotIn in k.1) refl refl
              (apart_lem st0 given ch st box p f.place l n) (f.kept p l n ∙ e)
              (inr (λ k. unfold NotIn in k.0 refl)) in
          (adopted p (length t) ch, st2, done, f2))
]
  where
    copy :
        (m : Bool)
        → Goes limit st0 given (if not m then box else some t) (
            if m
            then then_with (cloned (length st) (length t) ch) (free_buf ch.buf (st ++ some t ∷ []))
            else some (ch, st))
    copy false = (ch, st, refl, f)
    copy true =
        let (st2, done, f2) =
          put_new limit st0 given ch (cloned (length st) (length t) ch) st box t f refl refl in
        (cloned (length st) (length t) ch, st2, done, f2)

safe_send_big-Goes :
    (limit : ℕ) (st0 : Store) (given : List ℕ) (ch : Channel) (st : Store) (box : Option Text)
    (m : Bool) (n : ℕ)
    → Tells limit st0 given ch st box
    → Goes limit st0 given
        (if ltb n 1 || not m then box else some (replicate n b'x'))
        (safe_send_big m n ch st)
unfolding safe_send_big Goes
safe_send_big-Goes limit st0 given ch st box m n f = elim (Bool-cases (ltb n 1 || not m)) [
  | inl nothing ↦ rw (safe_send_big, nothing) (ch, st, refl, f)
  | inr big ↦
      rw (safe_send_big, big)
        (let (st2, done, f2) =
            put_new limit st0 given ch (adopted (length st) n ch) st box (replicate n b'x') f refl
              refl in
          (adopted (length st) n ch, st2, done, f2))
]

run_on :
    (limit : ℕ) (st0 : Store) (given : List ℕ) (box : Option Text) (r : Option (Channel × Store))
    (cs : List ChannelCall) (ts : List Text)
    → Goes limit st0 given box r
    → ((ch : Channel) (st : Store)
        → Tells limit st0 given ch st box
        → channel_run cs ch st ≡ some ts)
    → elim r [ none ↦ none | some (ch', st') ↦ channel_run cs ch' st' ] ≡ some ts
unfolding Goes
run_on limit st0 given box r cs ts (ch, st, e, f) g = rw e (g ch st f)

-- what a receipt gives
abbrev recv_of : Channel → Option ℕ → Option ℕ × Channel
recv_of ch none = (none, ch)
recv_of ch (some p) = (some p, record ch { buf = none; size = 0 })

safe_recv_at : (o : Option ℕ) (ch : Channel) → ch.buf ≡ o → safe_recv ch ≡ recv_of ch o
unfolding safe_recv
safe_recv_at o ch e = by_buf ch.buf ∙ ap (recv_of ch) e
  where
    by_buf :
        (b : Option ℕ)
        → elim b [ none ↦ (none, ch) | some p ↦ (some p, record ch { buf = none; size = 0 }) ]
          ≡ recv_of ch b
    by_buf none = refl
    by_buf (some p) = refl

run_lem :
    (limit : ℕ) (st0 : Store) (given : List ℕ) (calls : List ChannelCall) (ch : Channel)
    (st : Store) (box : Option Text)
    → Tells limit st0 given ch st box
    → IsProper limit st0 given calls
    → channel_run calls ch st ≡ some (mailbox limit st0 calls box)
unfolding channel_run mailbox IsProper safe_send safe_recv
run_lem limit st0 given [] ch st box f k = refl
run_lem limit st0 given (send m none ∷ cs) ch st box f k = run_lem limit st0 given cs ch st box f k
run_lem limit st0 given (send m (some p) ∷ cs) ch st box f (t, e, n, k) =
    let given' = if leb (length t) limit then given else p ∷ given in
    let box' = sent limit m (some t) box in
    let sends : Option Text → Option (Channel × Store) =
      λ o. elim o [ none ↦ none | some t ↦ send_text m p t ch st ] in
    ap (λ o. elim (sends o) [ none ↦ none | some (ch', st') ↦ channel_run cs ch' st' ])
      (f.kept p (live-lt st0 p t e) n ∙ e)
    ∙ run_on limit st0 given' box' (send_text m p t ch st) cs (mailbox limit st0 cs box')
        (send_text-Goes limit st0 given ch st box m p t f e n)
        (λ ch' st' f'. run_lem limit st0 given' cs ch' st' box' f' k)
    ∙ ap (λ o. some (mailbox limit st0 cs (sent limit m o box))) (sym e)
run_lem limit st0 given (send_big m n ∷ cs) ch st box f k =
    let box' = if ltb n 1 || not m then box else some (replicate n b'x') in
    run_on limit st0 given box' (safe_send_big m n ch st) cs (mailbox limit st0 cs box')
      (safe_send_big-Goes limit st0 given ch st box m n f)
      (λ ch' st' f'. run_lem limit st0 given cs ch' st' box' f' k)
run_lem limit st0 given (recv ∷ cs) ch st none f k =
    ap (λ r. behind (read st r.0) (channel_run cs r.1 st)) (safe_recv_at none ch f.place)
    ∙ ap (behind (some [])) (run_lem limit st0 given cs ch st none f k)
run_lem limit st0 given (recv ∷ cs) ch st (some t) f k =
    let (b, at, live, gone) = f.place in
    let empty =
      run_lem limit st0 given cs (record ch { buf = none; size = 0 }) st none
        (record { threshold = f.threshold; larger = f.larger; kept = f.kept; place = refl }) k in
    ap (λ r. behind (read st r.0) (channel_run cs r.1 st)) (safe_recv_at (some b) ch at)
    ∙ ap (λ o. behind o (channel_run cs (record ch { buf = none; size = 0 }) st)) live
    ∙ ap (behind (some t)) empty

-- A program that sends texts of its own, each one beyond the threshold at most once and then no more,
-- receives from an empty channel what a mailbox with one place would give: it never reads nor frees a
-- text that is freed, whether texts are copied or handed over. The texts are those that its addresses
-- had at the start, each is received at most once, and one that was not received is replaced by the
-- next.
pub channel_refines_mailbox :
    (calls : List ChannelCall) (ch : Channel) (st : Store)
    → ch.buf ≡ none
    → IsProper ch.threshold st [] calls
    → channel_run calls ch st ≡ some (mailbox ch.threshold st calls none)
channel_refines_mailbox calls ch st empty proper =
    run_lem ch.threshold st [] calls ch st none
      (record { threshold = refl; larger = omega arith; kept = λ a l n. refl; place = empty })
      proper
