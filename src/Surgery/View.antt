-- ===== src/Surgery/View.antt =====
-- What the loop of `surgical_manifest` (src/revert.rs) does at one path: each loop over all paths
-- comes to one step of what it knows of the path.
use mathlib.Core.Path.{ap₂}
use respawn.Base.{
  Bytes, Bool, true, false, not, ◌&&◌, Option, none, some, List, [], ◌∷◌, contains, ◌==◌, ==_iff,
  list_eq, nat_eq, option_eq, if◌then◌else◌, ◌≡◌, refl, sym, ap, ◌∙◌, inl, inr, arith, Bool-cases,
  Option-cases,
}
use respawn.Base.Dict.{Dict, lookup, insert, has, lookup-insert, has-eq_true, has-eq_false}
use respawn.Drift.Diffs.{AreKeysDistinct}
use respawn.Manifest.{FileEntry}
use respawn.Surgery.{
  Traced, touch, note_content, contents, content_of, trace_written, trace_removed, trace_other,
}
use respawn.Surgery.Undone.{first_of, other_entry}

-- What the loop knows of one path.
pub record View : Type 0 where
  pub touched : Bool
  pub pre : Option (Option FileEntry)
  pub own : List Bytes
  pub prev : Option FileEntry
  pub effective : Option FileEntry

pub first_of-none : {A : Type 0} (o : Option A) → o ≡ first_of o none
first_of-none none = refl
first_of-none (some a) = refl

pub first_of_assoc :
    {A : Type 0} (o r s : Option A) → first_of o (first_of r s) ≡ first_of (first_of o r) s
first_of_assoc none r s = refl
first_of_assoc (some a) r s = refl

abbrev pub touch_view : View → View
touch_view v = record v { touched = true; pre = first_of v.pre (some v.prev) }

touch_view_twice : (v : View) → touch_view (touch_view v) ≡ touch_view v
touch_view_twice v = elim (Option-cases v.pre) [
  | inl fresh ↦ rw fresh refl
  | inr (o, old) ↦ rw old refl
]

-- One more path that is the same, gone or not.
touch_view_absorb :
    (later there : Bool) (v : View)
    → (if later && not there
        then touch_view (if there then v else touch_view v)
        else if there
        then v
        else touch_view v)
      ≡ (if not there then touch_view v else v)
touch_view_absorb true true v = refl
touch_view_absorb true false v = touch_view_twice v
touch_view_absorb false true v = refl
touch_view_absorb false false v = refl

abbrev pub note_view : Bytes → View → View
note_view h v = record v { own = h ∷ v.own }

abbrev pub write_view : Option FileEntry → View → View
write_view none v = v
write_view (some fe) v =
    note_view fe.content (if content_of v.prev == some fe.content then v else touch_view v)

abbrev pub other_view : Bytes → List FileEntry → View → View
other_view p fes v = record v { effective = first_of (other_entry p v.own fes) v.effective }

module _ (p : Bytes) where
  abbrev pub view : Traced → View
  view t = record {
    touched = contains t.touched p;
    pre = lookup p t.pre;
    own = contents (lookup p t.actor_content);
    prev = lookup p t.prev;
    effective = lookup p t.effective;
  }

  touch-pre :
      (q : Bytes) (t : Traced)
      → lookup p (touch q t).pre
        ≡ first_of (lookup p t.pre) (if p == q then some (lookup p t.prev) else none)
  unfolding touch
  touch-pre q t = elim (Bool-cases (has q t.pre)) [
    | inl old ↦
        rw (touch, old)
          (elim (Bool-cases (p == q)) [
            | inl same ↦
                let there : has p t.pre ≡ true =
                  ap (λ r. has r t.pre) ((==_iff p q).0 same) ∙ old in
                let (v, found) = has-eq_true p t.pre there in rw (found) refl
            | inr other ↦ rw other (first_of-none (lookup p t.pre))
          ])
    | inr new ↦
        rw (touch, new, lookup-insert p q (lookup q t.prev) t.pre)
          (elim (Bool-cases (p == q)) [
            | inl same ↦
                let one = (==_iff p q).0 same in
                let gone = has-eq_false p t.pre (ap (λ r. has r t.pre) one ∙ new) in
                rw (same, gone) (ap (λ r. some (lookup r t.prev)) (sym one))
            | inr other ↦ rw other ((first_of-none (lookup p t.pre)))
          ])
  ]

  touch-touched :
      (q : Bytes) (t : Traced)
      → contains (touch q t).touched p ≡ (if p == q then true else contains t.touched p)
  unfolding touch
  touch-touched q t = elim (Bool-cases (contains t.touched q)) [
    | inl old ↦
        rw (touch, old)
          (elim (Bool-cases (p == q)) [
            | inl same ↦ rw same (ap (contains t.touched) ((==_iff p q).0 same) ∙ old)
            | inr other ↦ rw other refl
          ])
    | inr new ↦ rw (touch, new) (ground arith)
  ]

  view-touch :
      (q : Bytes) (t : Traced) → view (touch q t) ≡ (if p == q then touch_view (view t) else view t)
  unfolding touch
  view-touch q t =
      ap₂ (λ b o. record (view t) { touched = b; pre = o }) (touch-touched q t) (touch-pre q t)
      ∙ (elim (Bool-cases (p == q)) [
        | inl same ↦ rw same refl
        | inr other ↦
            rw other (ap (λ o. record (view t) { pre = o }) (sym (first_of-none (lookup p t.pre))))
      ])

  view-note_content :
      (q h : Bytes) (t : Traced)
      → view (note_content q h t) ≡ (if p == q then note_view h (view t) else view t)
  unfolding note_content
  view-note_content q h t =
      ap (λ o. record (view t) { own = contents o })
        (lookup-insert p q (h ∷ contents (lookup q t.actor_content)) t.actor_content)
      ∙ (elim (Bool-cases (p == q)) [
        | inl same ↦ rw same (
            ap (λ r. note_view_of h (contents (lookup r t.actor_content)))
              (sym ((==_iff p q).0 same)))
        | inr other ↦ rw other refl
      ])
    where
      note_view_of : Bytes → List Bytes → View
      note_view_of h own = record (view t) { own = h ∷ own }

  view-touch_unless :
      (b : Bool) (q : Bytes) (t : Traced)
      → view (if b then t else touch q t)
        ≡ (if p == q then if b then view t else touch_view (view t) else view t)
  view-touch_unless true q t = elim (Bool-cases (p == q)) [
    | inl same ↦ rw same refl
    | inr other ↦ rw other refl
  ]
  view-touch_unless false q t = view-touch q t

  view-write :
      (q : Bytes) (fe : FileEntry) (t : Traced)
      → view (
          note_content q fe.content
            (if content_of (lookup q t.prev) == some fe.content then t else touch q t))
        ≡ (if p == q then write_view (some fe) (view t) else view t)
  view-write q fe t =
      let touched = λ (r : Bytes).
        if content_of (lookup r t.prev) == some fe.content then view t else touch_view (view t) in
      view-note_content q fe.content _
      ∙ ap (λ v. if p == q then note_view fe.content v else v) (view-touch_unless _ q t)
      ∙ (elim (Bool-cases (p == q)) [
        | inl same ↦
            rw same (ap (λ r. note_view fe.content (touched r)) (sym ((==_iff p q).0 same)))
        | inr other ↦ rw other refl
      ])

  pub view-trace_written :
      (cur : Dict Bytes FileEntry) (t : Traced)
      → AreKeysDistinct cur
      → view (trace_written cur t) ≡ write_view (lookup p cur) (view t)
  unfolding trace_written lookup
  view-trace_written [] t h = refl
  view-trace_written ((q, fe) ∷ cur) t (new, h) =
      view-trace_written cur _ h
      ∙ ap (write_view (lookup p cur)) (view-write q fe t)
      ∙ (elim (Bool-cases (p == q)) [
        | inl same ↦
            let gone : lookup p cur ≡ none =
              has-eq_false p cur (ap (λ r. has r cur) ((==_iff p q).0 same) ∙ new) in
            rw (same, gone) refl
        | inr other ↦ rw other refl
      ])

  pub view-trace_removed :
      (cur : Dict Bytes FileEntry) (ps : List Bytes) (t : Traced)
      → view (trace_removed cur ps t)
        ≡ (if contains ps p && not (has p cur) then touch_view (view t) else view t)
  unfolding trace_removed
  view-trace_removed cur [] t = refl
  view-trace_removed cur (q ∷ ps) t =
      let later = λ (v : View). if contains ps p && not (has p cur) then touch_view v else v in
      view-trace_removed cur ps _
      ∙ ap later (view-touch_unless (has q cur) q t)
      ∙ (elim (Bool-cases (p == q)) [
        | inl same ↦ rw same (
            ap (λ r. later (if has r cur then view t else touch_view (view t)))
              (sym ((==_iff p q).0 same))
            ∙ touch_view_absorb (contains ps p) (has p cur) (view t))
        | inr other ↦ rw other refl
      ])

  view-trace_other_one :
      (fe : FileEntry) (t : Traced)
      → view (
          if contains (contents (lookup fe.path t.actor_content)) fe.content
          then t
          else record t { effective = insert fe.path fe t.effective })
        ≡ other_view p (fe ∷ []) (view t)
  view-trace_other_one fe t =
      let own_at = λ (r : Bytes). contains (contents (lookup r t.actor_content)) fe.content in
      elim (Bool-cases (own_at fe.path)) [
        | inl own ↦ rw own (elim (Bool-cases (p == fe.path)) [
          | inl same ↦ rw (same, ap own_at ((==_iff p fe.path).0 same) ∙ own) refl
          | inr other ↦ rw other refl
        ])
        | inr others ↦ rw others (
            ap (λ o. record (view t) { effective = o }) (lookup-insert p fe.path fe t.effective)
            ∙ (elim (Bool-cases (p == fe.path)) [
              | inl same ↦ rw (same, ap own_at ((==_iff p fe.path).0 same) ∙ others) refl
              | inr other ↦ rw other refl
            ]))
      ]

  pub view-trace_other :
      (fes : List FileEntry) (t : Traced) → view (trace_other fes t) ≡ other_view p fes (view t)
  unfolding trace_other
  view-trace_other [] t = refl
  view-trace_other (fe ∷ fes) t =
      view-trace_other fes _
      ∙ ap (other_view p fes) (view-trace_other_one fe t)
      ∙ ap (λ o. record (view t) { effective = o })
          (first_of_assoc (other_entry p (view t).own fes) _ (lookup p t.effective))
