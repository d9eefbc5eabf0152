-- ===== src/State/NativeWork/History.antt =====
-- Native work over a history of saves and removals, and what a failed save leaves.
use harness_control_protocol.Base.{
  String, ◌≡◌, ◌⊎◌, refl, sym, ap, ◌∙◌, Bool, true, false, Option, none, some, List, [], ◌∷◌, arith,
  ◌==◌, if◌then◌else◌, string_eq, length, ltb, find, eq_refl, ◌||◌, Option-cases, Result-cases,
  Bool-cases, inl, inr, ok,
}
use harness_control_protocol.Base.Dict.{Dict, lookup, insert, erase, lookup-insert, lookup-erase}
use harness_control_protocol.Protocol.Event.{Event}
use harness_control_protocol.State.{StateData, Options, append_unsaved, restore}
use harness_control_protocol.State.Work.{NativeWorkState, Custody}
use harness_control_protocol.State.WorkChecks.{check_save, find_root, find_goal, find_fork}
use harness_control_protocol.State.NativeWork.{
  undo, write_work, append_if, is_empty, save_native_work_state, remove_empty_native_work_state,
}
use harness_control_protocol.State.NativeWork.Kept.{Kept, Kept-refl, Kept-trans}
use harness_control_protocol.State.NativeWork.Checked.{check_save-Kept}

pub append_if-native_work :
    (options : Options) (event : Option Event) (d d' : StateData)
    → append_if options event d ≡ ok d'
    → d'.native_work ≡ d.native_work
unfolding append_if append_unsaved
append_if-native_work options none d d' h = ground arith
append_if-native_work options (some e) d d' h = ground arith

pub undo-native_work :
    (id j : String) (w : NativeWorkState) (d d' : StateData)
    → d'.native_work ≡ (write_work id w d).native_work
    → lookup j (undo id d d').native_work ≡ lookup j d.native_work
unfolding undo write_work restore
undo-native_work id j w d d' same = elim (Option-cases (lookup id d.native_work)) [
  | inl fresh ↦ ground (
    arith,
    fresh,
    same,
    lookup-erase j id (insert id w d.native_work),
    lookup-insert j id w d.native_work,
  )
  | inr (p, old) ↦ ground (
    arith,
    old,
    same,
    lookup-insert j id p (insert id w d.native_work),
    lookup-insert j id w d.native_work,
  )
]

write_work-lookup :
    (id j : String) (w : NativeWorkState) (d : StateData)
    → lookup j (write_work id w d).native_work
      ≡ (if j == id then some w else lookup j d.native_work)
unfolding write_work
write_work-lookup id j w d = lookup-insert j id w d.native_work

pub data WorkOp : Type 0 where
  save : String → NativeWorkState → Option Event → WorkOp
  remove : String → WorkOp

-- Something that no later save may drop: an execution, a goal, a fork, a custody or an open question.
abbrev pub is_admitted : NativeWorkState → Bool
is_admitted w =
    w.closure_unconfirmed
    || ltb 0 (length w.root_executions)
    || ltb 0 (length w.goals)
    || ltb 0 (length w.forks)
    || ltb 0 (length w.custody)

is_admitted-is_empty : (w : NativeWorkState) → is_admitted w ≡ true → is_empty w ≡ false
unfolding is_empty
is_admitted-is_empty w h = ground arith

nonempty_find :
    {A : Type 0} (key : A → String) (xs : List A)
    → ltb 0 (length xs) ≡ true
    → (a : A) × (find (λ x. key x == key a) xs ≡ some a)
nonempty_find key [] h = absurd (ground arith)
nonempty_find key (x ∷ xs) h = (x, ground (arith, eq_refl (key x)))

find_nonempty :
    {A : Type 0} (p : A → Bool) (xs : List A) {a : A}
    → find p xs ≡ some a
    → ltb 0 (length xs) ≡ true
find_nonempty p [] h = absurd (ground arith)
find_nonempty p (x ∷ xs) h = ground arith

custody_nonempty :
    (xs : Dict String Custody)
    → ltb 0 (length xs) ≡ true
    → (id : String) × ((a : Custody) × (lookup id xs ≡ some a))
unfolding lookup
custody_nonempty [] h = absurd (ground arith)
custody_nonempty ((k, a) ∷ xs) h = (k, (a, ground (arith, eq_refl k)))

nonempty_custody :
    (id : String) (xs : Dict String Custody) {a : Custody}
    → lookup id xs ≡ some a
    → ltb 0 (length xs) ≡ true
unfolding lookup
nonempty_custody id [] h = absurd (ground arith)
nonempty_custody id (x ∷ xs) h = ground arith

Kept-is_admitted : (p v : NativeWorkState) → Kept p v → is_admitted p ≡ true → is_admitted v ≡ true
unfolding find_root find_goal find_fork
Kept-is_admitted p v k h = elim (Bool-cases p.closure_unconfirmed) [
  | inl unsure ↦ ground (arith, k.closure unsure)
  | inr sure ↦ elim (Bool-cases (ltb 0 (length p.root_executions))) [
    | inl some_root ↦
        let (a, found) = nonempty_find (λ r. r.admission_id) p.root_executions some_root in
        let (b, there, same) = k.roots a.admission_id a found in
        ground (arith, find_nonempty _ v.root_executions there)
    | inr no_root ↦ elim (Bool-cases (ltb 0 (length p.goals))) [
      | inl some_goal ↦
          let (a, found) = nonempty_find (λ g. g.admission_id) p.goals some_goal in
          let (b, there, same) = k.goals a.admission_id a found in
          ground (arith, find_nonempty _ v.goals there)
      | inr no_goal ↦ elim (Bool-cases (ltb 0 (length p.forks))) [
        | inl some_fork ↦
            let (a, found) = nonempty_find (λ f. f.command_id) p.forks some_fork in
            let (b, there, same) = k.forks a.command_id a found in
            ground (arith, find_nonempty _ v.forks there)
        | inr no_fork ↦
            let (id, (a, found)) =
              custody_nonempty p.custody (ground (arith, sure, no_root, no_goal, no_fork, h)) in
            let (b, there, same) = k.custody id a found in
            ground (arith, nonempty_custody id v.custody there)
      ]
    ]
  ]
]

module _ (persist : StateData → Option String) (options : Options) where
  -- A save leaves a session's record, or puts the checked one in its place.
  save_cases :
      (id j : String) (w : NativeWorkState) (event : Option Event) (d : StateData)
      → let d' = (save_native_work_state persist options id w event d).0 in
        (lookup j d'.native_work ≡ lookup j d.native_work)
        ⊎ ((j ≡ id)
            × (lookup j d'.native_work ≡ some w)
            × (check_save (lookup id d.native_work) (length d.native_work) id w event ≡ ok tt))
  unfolding save_native_work_state
  save_cases id j w event d =
      let before = lookup id d.native_work in
      elim (Result-cases (check_save before (length d.native_work) id w event)) [
        | inl (e, bad) ↦ inl (ground (arith, bad))
        | inr (u, good) ↦ elim (Result-cases (append_if options event (write_work id w d))) [
          | inl (e, bad) ↦
              inl (ground (arith, good, bad, undo-native_work id j w d (write_work id w d) refl))
          | inr (d', fine) ↦
              let same = append_if-native_work options event (write_work id w d) d' fine in
              elim (Option-cases (persist d')) [
                | inr (m, lost) ↦
                    inl (ground (arith, good, fine, lost, undo-native_work id j w d d' same))
                | inl saved ↦ elim (string_eq.dec j id) [
                  | yes here ↦ inr (
                    here,
                    ground (arith, good, fine, saved, same, here, write_work-lookup id j w d),
                    good,
                  )
                  | no there ↦
                      inl
                        (ground (arith, good, fine, saved, same, there, write_work-lookup id j w d))
                ]
              ]
        ]
      ]

  save_native_work_state-Kept :
      (id j : String) (w p : NativeWorkState) (event : Option Event) (d : StateData)
      → lookup j d.native_work ≡ some p
      → (v : NativeWorkState) × (lookup j
            (save_native_work_state persist options id w event d).0.native_work
          ≡ some v)
        × Kept p v
  save_native_work_state-Kept id j w p event d found = elim (save_cases id j w event d) [
    | inl same ↦ (p, same ∙ found, Kept-refl p)
    | inr (here, new, good) ↦
        let before : lookup id d.native_work ≡ some p =
          ap (λ i. lookup i d.native_work) (sym here) ∙ found in
        let checked : check_save (some p) (length d.native_work) id w event ≡ ok tt =
          ap (λ o. check_save o (length d.native_work) id w event) (sym before) ∙ good in
        (w, new, check_save-Kept p w _ id event checked)
  ]

  -- A record that is not empty survives the removal of empty records.
  remove-lookup :
      (id j : String) (p : NativeWorkState) (d : StateData)
      → lookup j d.native_work ≡ some p
      → is_empty p ≡ false
      → lookup j (remove_empty_native_work_state persist options id d).0.native_work ≡ some p
  unfolding remove_empty_native_work_state
  remove-lookup id j p d found full = elim (Option-cases (lookup id d.native_work)) [
    | inl nothing ↦ ground (arith, nothing, found)
    | inr (w, there) ↦ elim (string_eq.dec j id) [
      | yes same ↦ ground (arith, same, there, found, full)
      | no other ↦ ground (
        arith,
        there,
        found,
        other,
        lookup-erase j id d.native_work,
        lookup-insert j id w (erase id d.native_work),
      )
    ]
  ]

  pub apply_op : WorkOp → StateData → StateData
  apply_op (save id w event) d = (save_native_work_state persist options id w event d).0
  apply_op (remove id) d = (remove_empty_native_work_state persist options id d).0

  pub run_ops : List WorkOp → StateData → StateData
  unfolding apply_op
  run_ops [] d = d
  run_ops (o ∷ os) d = run_ops os (apply_op o d)

  apply_op-Kept :
      (o : WorkOp) (j : String) (p : NativeWorkState) (d : StateData)
      → lookup j d.native_work ≡ some p
      → is_admitted p ≡ true
      → (v : NativeWorkState) × (lookup j (apply_op o d).native_work ≡ some v) × Kept p v
  unfolding apply_op
  apply_op-Kept (save id w event) j p d found h = save_native_work_state-Kept id j w p event d found
  apply_op-Kept (remove id) j p d found h =
      (p, remove-lookup id j p d found (is_admitted-is_empty p h), Kept-refl p)

  -- If a session's native work has something admitted - a root execution, a goal, a fork, a custody
  -- or an open closure - then after any list of saves and removals, accepted or refused, saved or
  -- not, the session still has a record: its scope is the same, an open closure is open, each
  -- policy binding has its hash, and each custody, root execution, goal and fork that was admitted
  -- is there with the same identity, with the execution references, phases and confirmations it
  -- had, and with counters that did not fall.
  pub run_ops-Kept :
      (os : List WorkOp) (j : String) (p : NativeWorkState) (d : StateData)
      → lookup j d.native_work ≡ some p
      → is_admitted p ≡ true
      → (v : NativeWorkState) × (lookup j (run_ops os d).native_work ≡ some v) × Kept p v
  unfolding run_ops
  run_ops-Kept [] j p d found h = (p, found, Kept-refl p)
  run_ops-Kept (o ∷ os) j p d found h =
      let (v, there, kept) = apply_op-Kept o j p d found h in
      let (w, last, more) =
        run_ops-Kept os j v (apply_op o d) there (Kept-is_admitted p v kept h) in
      (w, last, Kept-trans p v w kept more)
