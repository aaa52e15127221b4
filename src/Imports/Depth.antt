-- ===== src/Imports/Depth.antt =====
-- The nesting of imports: how deep `_imp_scan_file` goes, and what the lists hold behind it.
use plant_lang.Prelude.{
  ℕ, zero, suc, ◌+◌, ◌≤◌, ◌<◌, ◌≡◌, ◌≢◌, refl, sym, ap, ◌∙◌, subst, false, List, [], ◌∷◌, ◌++◌,
  Option, none, some, arith, length, Text, str_eq_iff, Bool-cases, inl, inr, times, to_nat,
  Option-cases,
}
use plant_lang.Imports.{
  import_report, entry_state, import_load, ImpState, ImpResult, expanded, cycle, unreadable,
  out_of_depth, is_text, imp_has, imp_remove, enter, finish, import_file, expand_line, imp_expand,
  scan_file, import_of, imp_resolve, imp_dirname, lines_of,
}
use plant_lang.Imports.Distinct.{count, imp_has-count, count-push, imp_remove-push, pigeonhole}

some_not_none : (t : Text) → some t ≢ none
some_not_none t e = subst (λ o. elim o [ none ↦ ⊥ | some a ↦ Unit ]) e tt

unfoldable pub Clean : ImpState → Type 0
Clean st = (x : Text) → count x st.pending + count x st.done ≤ 1

unfoldable pub Within : List Text → ImpState → Type 0
Within u st = (x : Text) → 0 < count x st.pending → 0 < count x u

-- a result where `pending` was the chain: never for want of depth, and an unreadable path has no text
unfoldable pub Ends : (Text → Option Text) → List Text → ImpResult → Type 0
unfolding Clean
Ends files pending (expanded st') = (st'.pending ≡ pending) × Clean st'
Ends files pending (cycle p) = Unit
Ends files pending (unreadable p) = files p ≡ none
Ends files pending out_of_depth = ⊥

length-push : (l : List Text) (x : Text) → length (l ++ x ∷ []) ≡ suc (length l)
length-push [] x = refl
length-push (y ∷ l) x = ap suc (length-push l x)

enter-Clean :
    (full : Text) (st : ImpState)
    → imp_has st.done full ≡ false
    → imp_has st.pending full ≡ false
    → Clean st
    → Clean (enter full st)
unfolding Clean
enter-Clean full st d p clean x =
    let a = count-push x full st.pending in
    let c = clean x in
    elim (Bool-cases (is_text x full)) [
      | inl same ↦
          let e : full ≡ x = (str_eq_iff full x).0 same in
          let zd : count x st.done ≡ 0 =
            subst (λ t. count t st.done ≡ 0) e (imp_has-count st.done full d) in
          let zp : count x st.pending ≡ 0 =
            subst (λ t. count t st.pending ≡ 0) e (imp_has-count st.pending full p) in
          let s = ap to_nat same in omega arith
      | inr other ↦ let s = ap to_nat other in omega arith
    ]

finish-Ends :
    (files : Text → Option Text) (full : Text) (st : ImpState) (r : ImpResult)
    → imp_has st.pending full ≡ false
    → Ends files (st.pending ++ full ∷ []) r
    → Ends files st.pending (finish full r)
unfolding Ends Clean finish
finish-Ends files full st (expanded st') p (same, clean) =
    let back : imp_remove st'.pending full ≡ st.pending =
      ap (λ l. imp_remove l full) same
      ∙ imp_remove-push st.pending full (imp_has-count st.pending full p) in
    (
      back,
      λ x.
          let c = clean x in
          let b = ap (count x) back in
          let s = ap (count x) same in
          let a = count-push x full st.pending in let d = count-push x full st'.done in omega arith,
    )
finish-Ends files full st (cycle q) p h = h
finish-Ends files full st (unreadable q) p h = h
finish-Ends files full st out_of_depth p h = h

module _ (files : Text → Option Text) (u : List Text) where
  -- what `scan` promises at `depth`
  pub Scans : ℕ → (Text → ImpState → ImpResult) → Type 0
  Scans depth scan =
      (path : Text) (st : ImpState)
      → Clean (enter path st)
      → Within u st
      → length u < depth + length st.pending
      → Ends files (st.pending ++ path ∷ []) (scan path (enter path st))

  import_file-Ends :
      (depth : ℕ) (scan : Text → ImpState → ImpResult)
      → Scans depth scan
      → (full line : Text) (st : ImpState) → Clean st
      → Within u st
      → length u < depth + length st.pending
      → Ends files st.pending (import_file scan full line st)
  unfolding Ends Clean Scans import_file
  import_file-Ends depth scan ok full line st clean within deep =
      elim (Bool-cases (imp_has st.done full)) [
        | inl d ↦ rw (d) (refl, clean)
        | inr d ↦ elim (Bool-cases (imp_has st.pending full)) [
          | inl p ↦ rw (d, p) tt
          | inr p ↦
              let inner = ok full st (enter-Clean full st d p clean) within deep in
              rw (d, p) (finish-Ends files full st (scan full (enter full st)) p inner)
        ]
      ]

  expand_line-Ends :
      (depth : ℕ) (scan : Text → ImpState → ImpResult)
      → Scans depth scan
      → (dir line : Text) (st : ImpState) → Clean st
      → Within u st
      → length u < depth + length st.pending
      → Ends files st.pending (expand_line scan dir line st)
  unfolding Ends Clean expand_line
  expand_line-Ends depth scan ok dir line st clean within deep =
      elim (Option-cases (import_of line)) [
        | inl e ↦ rw (expand_line, e) (refl, clean)
        | inr (rel, e) ↦
            rw (expand_line, e)
              (import_file-Ends depth scan ok (imp_resolve dir rel) line st clean within deep)
      ]

  pub imp_expand-Ends :
      (depth : ℕ) (scan : Text → ImpState → ImpResult)
      → Scans depth scan
      → (dir : Text) (lines : List Text) (st : ImpState) → Clean st
      → Within u st
      → length u < depth + length st.pending
      → Ends files st.pending (imp_expand scan dir lines st)
  unfolding Ends Clean Within imp_expand
  imp_expand-Ends depth scan ok dir [] st clean within deep = (refl, clean)
  imp_expand-Ends depth scan ok dir (line ∷ lines) st clean within deep =
      further (imp_expand-Ends depth scan ok dir lines) (expand_line scan dir line st)
        (expand_line-Ends depth scan ok dir line st clean within deep)
    where
      further :
          ((st' : ImpState)
            → Clean st'
            → Within u st'
            → length u < depth + length st'.pending
            → Ends files st'.pending (imp_expand scan dir lines st'))
          → (r : ImpResult) → Ends files st.pending r
          → Ends files st.pending (elim r [
            | expanded st' ↦ imp_expand scan dir lines st'
            | cycle p ↦ cycle p
            | unreadable p ↦ unreadable p
            | out_of_depth ↦ out_of_depth
          ])
      further ih (expanded st') (same, clean') =
          subst (λ l. Ends files l (imp_expand scan dir lines st')) same
            (ih st' clean' (λ x h. within x (subst (λ l. 0 < count x l) same h))
              (subst (λ l. length u < depth + length l) (sym same) deep))
      further ih (cycle p) h = h
      further ih (unreadable p) h = h
      further ih out_of_depth h = h

  scan_file-Scans :
      ((path body : Text) → files path ≡ some body → 0 < count path u)
      → (depth : ℕ) → Scans depth (scan_file files depth)
  unfolding Ends Clean Within Scans scan_file
  scan_file-Scans known zero path st clean within deep =
      let fits =
        pigeonhole st.pending u
          (λ x. let c = clean x in let a = count-push x path st.pending in omega arith) within in
      absurd (omega arith)
  scan_file-Scans known (suc depth) path st clean within deep = elim (Option-cases (files path)) [
    | inl e ↦ rw (scan_file, e) e
    | inr (body, e) ↦
        let here : Within u (enter path st) = λ x h. inside x h body e in
        let l = length-push st.pending path in
        rw (scan_file, e)
          (imp_expand-Ends depth (scan_file files depth) (scan_file-Scans known depth)
            (imp_dirname path) (lines_of body) (enter path st) clean here (omega arith))
  ]
    where
      inside :
          (x : Text)
          → 0 < count x (st.pending ++ path ∷ [])
          → (body : Text) → files path ≡ some body
          → 0 < count x u
      inside x h body e = elim (Bool-cases (is_text x path)) [
        | inl same ↦ subst (λ t. 0 < count t u) ((str_eq_iff path x).0 same) (known path body e)
        | inr other ↦
            let a = count-push x path st.pending in
            let t = ap to_nat other in within x (omega arith)
      ]

-- Where only the paths of the finite list `u` can be read, the expansion of any lines ends with a text,
-- a cycle or a path that has no text, whatever imports whatever, once the nesting may be deeper than
-- `u` is long, the pending files counted. This is from any state that lists no path twice and whose
-- pending paths are in `u`. A text comes with the pending files as before and no path listed twice.
pub imp_expand-terminates :
    (files : Text → Option Text) (u : List Text)
    → ((path body : Text) → files path ≡ some body → 0 < count path u)
    → (depth : ℕ) (dir : Text) (lines : List Text) (st : ImpState) → Clean st
    → Within u st
    → length u < depth + length st.pending
    → Ends files st.pending (imp_expand (scan_file files depth) dir lines st)
imp_expand-terminates files u known depth =
    imp_expand-Ends files u depth (scan_file files depth) (scan_file-Scans files u known depth)

import_report-Ends :
    (files : Text → Option Text) (pending : List Text) (r : ImpResult)
    → Ends files pending r
    → import_report r ≢ none
unfolding Ends import_report
import_report-Ends files pending (expanded st) h = some_not_none _
import_report-Ends files pending (cycle p) h = some_not_none _
import_report-Ends files pending (unreadable p) h = some_not_none _
import_report-Ends files pending out_of_depth h = absurd h

-- Where only finitely many path texts can be read, each spelling of a file counted, loading an entry
-- file answers a text, an error text included, whatever imports whatever: a nesting as deep as the
-- number of these path texts is enough.
pub import_load-terminates :
    (files : Text → Option Text) (u : List Text)
    → ((path body : Text) → files path ≡ some body → 0 < count path u)
    → (entry : Text) → import_load files (length u) entry ≢ none
unfolding Clean Within times import_load
import_load-terminates files u known entry = elim (Option-cases (files entry)) [
  | inl e ↦ rw (import_load, e) (some_not_none _)
  | inr (body, e) ↦
      let clean : Clean (entry_state entry) = λ x. elim (Bool-cases (is_text x entry)) [
        | inl y ↦ let t = ap to_nat y in omega arith
        | inr n ↦ let t = ap to_nat n in omega arith
      ] in
      let within : Within u (entry_state entry) = λ x h. elim (Bool-cases (is_text x entry)) [
        | inl same ↦ subst (λ t. 0 < count t u) ((str_eq_iff entry x).0 same) (known entry body e)
        | inr n ↦ let t = ap to_nat n in absurd (omega arith)
      ] in
      let ends =
        imp_expand-terminates files u known (length u) (imp_dirname entry) (lines_of body)
          (entry_state entry) clean within (omega arith) in
      rw (import_load, e) (import_report-Ends files (entry ∷ []) _ ends)
]
