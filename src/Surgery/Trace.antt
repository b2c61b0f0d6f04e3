-- ===== src/Surgery/Trace.antt =====
-- What the loop of `surgical_manifest` (src/revert.rs) over the chain does at one path, and what the
-- path resolves to after it.
use mathlib.Core.Path.{ap₂}
use respawn.Base.{
  Bytes, Bool, true, false, not, ◌&&◌, Option, none, some, List, [], ◌∷◌, contains, ◌==◌, ==_refl,
  list_eq, nat_eq, option_eq, if◌then◌else◌, ◌≡◌, refl, sym, ap, ◌∙◌, inl, inr, arith, Bool-cases,
  Option-cases,
}
use respawn.Base.Dict.{Dict, keys, lookup, has}
use respawn.Drift.{by_path}
use respawn.Drift.Diffs.{AreKeysDistinct, by_path-AreKeysDistinct}
use respawn.Manifest.{FileEntry, Manifest}
use respawn.Surgery.{
  Traced, content_of, trace_written, trace_removed, trace_manifest, trace, nothing_traced,
  resolve_path, flatten_entry,
}
use respawn.Surgery.Undone.{
  first_of, is_some, is_by, first_touch, other_entry, add_content, others_work, undone,
}
use respawn.Surgery.View.{
  View, touch_view, write_view, other_view, view, first_of-none, first_of_assoc, note_view,
  view-trace_written, view-trace_removed, view-trace_other,
}

-- A snapshot of the actor, for a path that it has as `cur`.
abbrev own_view : Option FileEntry → View → View
own_view cur v =
    let same = content_of v.prev == content_of cur in
    record v {
      touched = if same then v.touched else true;
      pre = first_of v.pre (if same then none else some v.prev);
      own = add_content (content_of cur) v.own;
      prev = cur;
    }

own_view-some :
    (fe : FileEntry) (v : View)
    → record (write_view (some fe) v) { prev = some fe } ≡ own_view (some fe) v
own_view-some fe v = elim (Bool-cases (content_of v.prev == some fe.content)) [
  | inl same ↦
      rw same (
        ap (λ o. record (note_view fe.content v) { pre = o; prev = some fe }) (first_of-none v.pre))
  | inr other ↦ rw other refl
]

some_other : (h : Bytes) → (some h == none) ≡ false
some_other h = ground arith

-- The two loops over a snapshot of the actor come to that.
own_view_lem :
    (before cur : Option FileEntry) (v : View)
    → v.prev ≡ before
    → record (if is_some before && not (is_some cur)
        then touch_view (write_view cur v)
        else write_view cur v) { prev = cur }
      ≡ own_view cur v
own_view_lem none none v e =
    rw (e, ==_refl {A = Option Bytes} none)
      (ap (λ o. record v { pre = o; prev = none }) (first_of-none v.pre))
own_view_lem (some fe) none v e = rw (e, some_other fe.content) refl
own_view_lem none (some fe) v e = own_view-some fe v
own_view_lem (some g) (some fe) v e = own_view-some fe v

abbrev manifest_view : Bytes → Bytes → Manifest → View → View
manifest_view p actor m v =
    let cur = lookup p (by_path m.files) in
    if is_by actor m then own_view cur v else record (other_view p m.files v) { prev = cur }

abbrev trace_view : Bytes → Bytes → List Manifest → View → View
trace_view p actor [] v = v
trace_view p actor (m ∷ ms) v = trace_view p actor ms (manifest_view p actor m v)

module _ (p : Bytes) where
  contains-keys : (d : Dict Bytes FileEntry) → contains (keys d) p ≡ is_some (lookup p d)
  unfolding lookup
  contains-keys [] = refl
  contains-keys ((q, fe) ∷ d) = elim (Bool-cases (p == q)) [
    | inl same ↦ rw same refl
    | inr other ↦ rw other (contains-keys d)
  ]

  has-is_some : (d : Dict Bytes FileEntry) → has p d ≡ is_some (lookup p d)
  unfolding has
  has-is_some d = elim (Option-cases (lookup p d)) [
    | inl gone ↦ rw (has, gone) refl
    | inr (fe, there) ↦ rw (has, there) refl
  ]

  view-trace_own :
      (cur : Dict Bytes FileEntry) (t : Traced)
      → AreKeysDistinct cur
      → view p (record (trace_removed cur (keys t.prev) (trace_written cur t)) { prev = cur })
        ≡ own_view (lookup p cur) (view p t)
  view-trace_own cur t h =
      let next =
        λ (b : Bool) (v : View). record (if b then touch_view v else v) { prev = lookup p cur } in
      ap {A = View} (λ v. record v { prev = lookup p cur })
        (view-trace_removed p cur (keys t.prev) (trace_written cur t))
      ∙ ap₂ next (ap₂ (λ a b. a && not b) (contains-keys t.prev) (has-is_some cur))
          (view-trace_written p cur t h)
      ∙ own_view_lem (lookup p t.prev) (lookup p cur) (view p t) refl

  view-trace_manifest :
      (actor : Bytes) (m : Manifest) (t : Traced)
      → view p (trace_manifest actor m t) ≡ manifest_view p actor m (view p t)
  unfolding trace_manifest
  view-trace_manifest actor m t = elim (Bool-cases (m.actor == some actor)) [
    | inl own ↦
        rw (trace_manifest, own)
          (view-trace_own (by_path m.files) t (by_path-AreKeysDistinct m.files))
    | inr other ↦
        rw (trace_manifest, other)
          (ap {A = View} (λ v. record v { prev = lookup p (by_path m.files) })
            (view-trace_other p m.files t))
  ]

  view-trace :
      (actor : Bytes) (ms : List Manifest) (t : Traced)
      → view p (trace actor ms t) ≡ trace_view p actor ms (view p t)
  unfolding trace
  view-trace actor [] t = refl
  view-trace actor (m ∷ ms) t =
      view-trace actor ms _ ∙ ap (trace_view p actor ms) (view-trace_manifest actor m t)

module _ (p actor : Bytes) where
  trace_view-pre :
      (ms : List Manifest) (v : View)
      → (trace_view p actor ms v).pre ≡ first_of v.pre (first_touch actor p v.prev ms)
  trace_view-pre [] v = first_of-none v.pre
  trace_view-pre (m ∷ ms) v = trace_view-pre ms _ ∙ (elim (Bool-cases (is_by actor m)) [
    | inl own ↦
        rw own (elim (Bool-cases (content_of v.prev == content_of (lookup p (by_path m.files)))) [
          | inl same ↦ rw same (
              ap (λ o. first_of o (first_touch actor p (lookup p (by_path m.files)) ms))
                (sym (first_of-none v.pre)))
          | inr changed ↦ rw changed (
              sym (
                first_of_assoc v.pre (some v.prev)
                  (first_touch actor p (lookup p (by_path m.files)) ms)))
        ])
    | inr other ↦ rw other refl
  ])

  if_same : (b : Bool) → (if b then true else true) ≡ true
  if_same true = refl
  if_same false = refl

  trace_view-touched :
      (ms : List Manifest) (v : View)
      → (trace_view p actor ms v).touched
        ≡ (if is_some (first_touch actor p v.prev ms) then true else v.touched)
  trace_view-touched [] v = refl
  trace_view-touched (m ∷ ms) v = trace_view-touched ms _ ∙ (elim (Bool-cases (is_by actor m)) [
    | inl own ↦
        rw own (elim (Bool-cases (content_of v.prev == content_of (lookup p (by_path m.files)))) [
          | inl same ↦ rw same refl
          | inr changed ↦
              rw changed (if_same (is_some (first_touch actor p (lookup p (by_path m.files)) ms)))
        ])
    | inr other ↦ rw other refl
  ])

  trace_view-effective :
      (ms : List Manifest) (v : View)
      → (trace_view p actor ms v).effective ≡ first_of (others_work actor p v.own ms) v.effective
  trace_view-effective [] v = refl
  trace_view-effective (m ∷ ms) v = trace_view-effective ms _ ∙ (elim (Bool-cases (is_by actor m)) [
    | inl own ↦ rw own refl
    | inr other ↦
        rw other
          (first_of_assoc (others_work actor p v.own ms) (other_entry p v.own m.files) v.effective)
  ])

if_true : (b : Bool) → (if b then true else false) ≡ b
if_true true = refl
if_true false = refl

-- The loop marks the paths that the actor changed.
pub contains-trace :
    (actor p : Bytes) (ms : List Manifest)
    → contains (trace actor ms nothing_traced).touched p ≡ is_some (first_touch actor p none ms)
unfolding lookup
contains-trace actor p ms =
    ap (λ v. v.touched) (view-trace p actor ms nothing_traced)
    ∙ trace_view-touched p actor ms (view p nothing_traced)
    ∙ if_true (is_some (first_touch actor p none ms))

resolve_path-first_of :
    (t : Traced) (p : Bytes)
    → resolve_path t p ≡ first_of (lookup p t.effective) (flatten_entry (lookup p t.pre))
unfolding resolve_path
resolve_path-first_of t p = elim (Option-cases (lookup p t.effective)) [
  | inl none_there ↦ rw (resolve_path, none_there) refl
  | inr (fe, there) ↦ rw (resolve_path, there) refl
]

-- A path resolves to what an undo puts there.
pub resolve_path-trace :
    (actor p : Bytes) (ms : List Manifest)
    → resolve_path (trace actor ms nothing_traced) p ≡ undone actor ms p
unfolding lookup
resolve_path-trace actor p ms =
    let seen = view-trace p actor ms nothing_traced in
    let first = view p nothing_traced in
    resolve_path-first_of (trace actor ms nothing_traced) p
    ∙ ap₂ (λ e o. first_of e (flatten_entry o))
        (ap (λ v. v.effective) seen
          ∙ trace_view-effective p actor ms first
          ∙ sym (first_of-none (others_work actor p [] ms)))
        (ap (λ v. v.pre) seen ∙ trace_view-pre p actor ms first)
