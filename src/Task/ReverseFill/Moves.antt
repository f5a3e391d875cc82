-- ===== src/Task/ReverseFill/Moves.antt =====
-- Each operation of the runtime (software/core/task/reverse_fill_state.py) moves each row by a step of the
-- abstract machine that bears the operation's name and key.
use survey_controller.Common.{
  ℕ, suc, ◌≡◌, ◌⊎◌, ℤ, Bool, true, false, List, ◌∷◌, Text, count, leb, clamp_0, or_zero,
  if◌then◌else◌, nat_eq, text_eq, refl, arith, Option-cases, Bool-cases, inl, inr, sym, subst, ap,
  ◌∙◌, nat_beq, nat_beq_iff, text_beq_iff, none, some, ◌==◌, ==_self,
}
use survey_controller.Common.Dict.{
  lookup, insert, erase, count-insert_new, count-erase_hit, lookup-insert, lookup-erase_other,
}
use survey_controller.Common.PySet.{add}
use survey_controller.Task.Defs.{ReverseFillRuntimeState}
use survey_controller.Task.ReverseFill.{release_locked, commit_locked, failed_locked}
use survey_controller.Task.ReverseFill.Places.{
  IsPlaced, Acquires, kept, taken, empty, free_of, same_key,
}
use survey_controller.Task.ReverseFill.Steps.{Op, acquire, release, commit, fail}
use survey_controller.Task.ReverseFill.Standing.{
  Standing, absent, queued, committed, discarded, held, Stands, holds, Move, takes, returns, drops,
  commits, retries, discards, leaves,
}

-- The row takes a move of the operation, and stands where that leads.
abbrev pub Moves : Op → ℕ → Standing → ReverseFillRuntimeState → Type 0
Moves op a s after = (t : Standing) × Move op s t × Stands a after t

module _ (r : ReverseFillRuntimeState) (v : IsPlaced r) (a : ℕ) where
  held_by :
      (s : Standing) (key : Text) (row : ℕ)
      → Stands a r s
      → lookup key r.reserved_row_by_thread ≡ some row
      → nat_beq row a ≡ true
      → held key ≡ s
  held_by absent key row st e same =
      absurd (ground (arith, count-erase_hit key row a r.reserved_row_by_thread e))
  held_by queued key row st e same =
      absurd (ground (arith, count-erase_hit key row a r.reserved_row_by_thread e))
  held_by committed key row st e same =
      absurd (ground (arith, count-erase_hit key row a r.reserved_row_by_thread e))
  held_by discarded key row st e same =
      absurd (ground (arith, count-erase_hit key row a r.reserved_row_by_thread e))
  held_by (held k) key row st e same =
      let it : row ≡ a = ground (arith, nat_beq_iff row a) in
      let both = same_key r v key row e k (st.0 ∙ ap some (sym it)) in
      let keys : key ≡ k = ground (arith, text_beq_iff key k) in ap held keys

  unheld :
      (s : Standing) (key : Text) (row : ℕ)
      → Stands a r s
      → lookup key r.reserved_row_by_thread ≡ some row
      → nat_beq row a ≡ false
      → holds key s ≡ false
  unheld absent key row st e other = refl
  unheld queued key row st e other = refl
  unheld committed key row st e other = refl
  unheld discarded key row st e other = refl
  unheld (held k) key row st e other = elim (Bool-cases (key == k)) [
    | inl same ↦ absurd (ground (arith, text_beq_iff key k, nat_beq_iff row a))
    | inr apart ↦ apart
  ]

  -- A thread that holds a row: it is the row in question, or another.
  holder :
      (s : Standing) (key : Text) (row : ℕ)
      → Stands a r s
      → lookup key r.reserved_row_by_thread ≡ some row
      → ((row ≡ a) × (held key ≡ s)) ⊎ ((nat_beq row a ≡ false) × (holds key s ≡ false))
  holder s key row st e =
      let erased = count-erase_hit key row a r.reserved_row_by_thread e in
      elim (Bool-cases (nat_beq row a)) [
        | inl same ↦ inl (ground (arith, nat_beq_iff row a), held_by s key row st e same)
        | inr other ↦ inr (other, unheld s key row st e other)
      ]

  -- A row that another thread's operation does not touch.
  untouched :
      (s : Standing) (key : Text) (row : ℕ) (r' : ReverseFillRuntimeState)
      → lookup key r.reserved_row_by_thread ≡ some row
      → nat_beq row a ≡ false
      → holds key s ≡ false
      → r'.reserved_row_by_thread ≡ erase key r.reserved_row_by_thread
      → count a r'.queued_row_numbers ≡ count a r.queued_row_numbers
      → count a r'.committed_row_numbers ≡ count a r.committed_row_numbers
      → count a r'.discarded_row_numbers ≡ count a r.discarded_row_numbers
      → Stands a r s
      → Stands a r' s
  untouched absent key row r' e o h res q c d st =
      rw (res, q, c, d) (ground (arith, count-erase_hit key row a r.reserved_row_by_thread e))
  untouched queued key row r' e o h res q c d st =
      rw (res, q, c, d) (ground (arith, count-erase_hit key row a r.reserved_row_by_thread e))
  untouched committed key row r' e o h res q c d st =
      rw (res, q, c, d) (ground (arith, count-erase_hit key row a r.reserved_row_by_thread e))
  untouched discarded key row r' e o h res q c d st =
      rw (res, q, c, d) (ground (arith, count-erase_hit key row a r.reserved_row_by_thread e))
  untouched (held k) key row r' e o h res q c d st =
      rw (res, q, c, d)
        (
          lookup-erase_other key k r.reserved_row_by_thread h ∙ st.0,
          ground (arith, count-erase_hit key row a r.reserved_row_by_thread e),
        )

  -- The thread holds nothing.
  nobody :
      (s : Standing) (key : Text)
      → Stands a r s
      → lookup key r.reserved_row_by_thread ≡ none
      → holds key s ≡ false
  nobody absent key st e = refl
  nobody queued key st e = refl
  nobody committed key st e = refl
  nobody discarded key st e = refl
  nobody (held k) key st e = elim (Bool-cases (key == k)) [
    | inl same ↦ absurd (ground (arith, text_beq_iff key k))
    | inr apart ↦ apart
  ]

  -- What becomes of a row when its thread lets go of it.
  pub release-Moves :
      (key : Text) (requeue : Bool) (s : Standing)
      → Stands a r s
      → Moves (release key requeue) a s (release_locked key requeue r).0
  unfolding release_locked
  release-Moves key requeue s st = elim (Option-cases (lookup key r.reserved_row_by_thread)) [
    | inl e ↦ (s, leaves (release key requeue) s (nobody s key st e), rw (e, release_locked) st)
    | inr (row, e) ↦
        let (c, d, q) = free_of r v key row e in
        let after = (release_locked key requeue r).0 in
        let erased = count-erase_hit key row a r.reserved_row_by_thread e in
        elim (holder s key row st e) [
          | inr (other, apart) ↦ (
            s,
            leaves (release key requeue) s apart,
            untouched s key row after e other apart (rw (e, c, d, release_locked) (ground arith))
                (rw (e, c, d, release_locked) (ground arith))
                (rw (e, c, d, release_locked) (ground arith))
                (rw (e, c, d, release_locked) (ground arith)) st,
          )
          | inl (it, mine) ↦
              let mine_st = subst (Stands a r) (sym mine) st in
              subst (λ x. Moves (release key requeue) a x after) mine
                (elim (Bool-cases requeue) [
                  | inl k ↦ rw k (
                    queued,
                    returns key,
                    rw (e, c, d, release_locked)
                        (ground (arith, erased, nat_beq_iff row a, mine_st)),
                  )
                  | inr k ↦ rw k (
                    absent,
                    drops key,
                    rw (e, release_locked) (ground (arith, erased, nat_beq_iff row a, mine_st)),
                  )
                ])
        ]
  ]

  pub commit-Moves :
      (key : Text) (s : Standing) → Stands a r s → Moves (commit key) a s (commit_locked key r).0
  unfolding commit_locked add
  commit-Moves key s st = elim (Option-cases (lookup key r.reserved_row_by_thread)) [
    | inl e ↦ (s, leaves (commit key) s (nobody s key st e), rw (e, commit_locked) st)
    | inr (row, e) ↦
        let (c, d, q) = free_of r v key row e in
        let after = (commit_locked key r).0 in
        let erased = count-erase_hit key row a r.reserved_row_by_thread e in
        elim (holder s key row st e) [
          | inr (other, apart) ↦ (
            s,
            leaves (commit key) s apart,
            untouched s key row after e other apart (rw (e, commit_locked) refl)
                (rw (e, commit_locked) refl) (rw (e, commit_locked, c) (ground arith))
                (rw (e, commit_locked) refl) st,
          )
          | inl (it, mine) ↦
              let mine_st = subst (Stands a r) (sym mine) st in
              subst (λ x. Moves (commit key) a x after) mine
                (
                  committed,
                  commits key,
                  rw (e, commit_locked, c) (ground (arith, erased, nat_beq_iff row a, mine_st)),
                )
        ]
  ]

  pub fail-Moves :
      (key : Text) (m : ℤ) (s : Standing)
      → Stands a r s
      → Moves (fail key m) a s (failed_locked key m r).0
  unfolding failed_locked add
  fail-Moves key m s st = elim (Option-cases (lookup key r.reserved_row_by_thread)) [
    | inl e ↦ (s, leaves (fail key m) s (nobody s key st e), rw (e, failed_locked) st)
    | inr (row, e) ↦
        let (c, d, q) = free_of r v key row e in
        let after = (failed_locked key m r).0 in
        let erased = count-erase_hit key row a r.reserved_row_by_thread e in
        let again = leb (suc (or_zero (lookup row r.failure_count_by_row))) (clamp_0 m) in
        elim (holder s key row st e) [
          | inr (other, apart) ↦ (
            s,
            leaves (fail key m) s apart,
            untouched s key row after e other apart (rw (e, failed_locked, d) (ground arith))
                (rw (e, failed_locked, d) (ground arith)) (rw (e, failed_locked, d) (ground arith))
                (rw (e, failed_locked, d) (ground arith)) st,
          )
          | inl (it, mine) ↦
              let mine_st = subst (Stands a r) (sym mine) st in
              subst (λ x. Moves (fail key m) a x after) mine
                (elim (Bool-cases again) [
                  | inl k ↦ (
                    queued,
                    retries key m,
                    rw (e, failed_locked, d) (ground (arith, erased, nat_beq_iff row a, mine_st)),
                  )
                  | inr k ↦ (
                    discarded,
                    discards key m,
                    rw (e, failed_locked, d) (ground (arith, erased, nat_beq_iff row a, mine_st)),
                  )
                ])
        ]
  ]

  -- The head of the queue is taken: it is the row in question, or another.
  taken-Moves :
      (target : ℤ) (cur : ℕ) (key : Text) (row : ℕ) (rest : List ℕ) (s : Standing)
      (after : ReverseFillRuntimeState)
      → lookup key r.reserved_row_by_thread ≡ none
      → r.queued_row_numbers ≡ row ∷ rest
      → after ≡ record r {
        queued_row_numbers = rest;
        reserved_row_by_thread = insert key row r.reserved_row_by_thread;
      }
      → Stands a r s
      → Moves (acquire target cur key) a s after
  taken-Moves target cur key row rest queued after e h eq st =
      let new = count-insert_new key row a r.reserved_row_by_thread e in
      elim (Bool-cases (nat_beq row a)) [
        | inl same ↦
            let it : row ≡ a = ground (arith, nat_beq_iff row a) in
            (
              held key,
              takes target cur key,
              rw eq (
                lookup-insert key key row r.reserved_row_by_thread
                    ∙ ap (λ b. if b then some row else lookup key r.reserved_row_by_thread)
                        (==_self key)
                    ∙ ap some it,
                ground (arith, new, h, nat_beq_iff row a),
              ),
            )
        | inr other ↦
            (queued, leaves (acquire target cur key) queued refl, rw eq (ground (arith, new, h)))
      ]
  taken-Moves target cur key row rest (held k) after e h eq st =
      let new = count-insert_new key row a r.reserved_row_by_thread e in
      let apart = nobody (held k) key st e in
      (
        held k,
        leaves (acquire target cur key) (held k) refl,
        rw eq (
          lookup-insert key k row r.reserved_row_by_thread
              ∙ ap (λ b. if b then some row else lookup k r.reserved_row_by_thread) apart
              ∙ st.0,
          ground (arith, new, h),
        ),
      )
  taken-Moves target cur key row rest absent after e h eq st = (
    absent,
    leaves (acquire target cur key) absent refl,
    rw eq (ground (arith, count-insert_new key row a r.reserved_row_by_thread e, h)),
  )
  taken-Moves target cur key row rest committed after e h eq st = (
    committed,
    leaves (acquire target cur key) committed refl,
    rw eq (ground (arith, count-insert_new key row a r.reserved_row_by_thread e, h, v.placed a)),
  )
  taken-Moves target cur key row rest discarded after e h eq st = (
    discarded,
    leaves (acquire target cur key) discarded refl,
    rw eq (ground (arith, count-insert_new key row a r.reserved_row_by_thread e, h, v.placed a)),
  )

  pub acquire-Moves :
      (target : ℤ) (cur : ℕ) (key : Text) (s : Standing) (after : _)
      → Acquires target cur key r after
      → Stands a r s
      → Moves (acquire target cur key) a s after.0
  acquire-Moves target cur key s after (kept row sample e e' eq) st =
      (s, leaves (acquire target cur key) s refl, rw eq st)
  acquire-Moves target cur key s after (empty e h eq) st =
      (s, leaves (acquire target cur key) s refl, rw eq st)
  acquire-Moves target cur key s after (taken row rest sample e h e' eq) st =
      taken-Moves target cur key row rest s after.0 e h (ap (λ x. x.0) eq) st
