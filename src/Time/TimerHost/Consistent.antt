-- ===== src/Time/TimerHost/Consistent.antt =====
-- The list of active timers of stk::time::TimerHost of stk/include/time/stk_time_timer.h and the flags m_active of the
-- timers, under the commands and the visits of the tick task.
use bare_metal_rtos.Base.{
  Option, ◌==◌, count-erase_self, count-erase_ne, refl, sym, inr, inl, Bool-cases, ◌≢◌,
  count-erase_ne, count-erase_self, ℕ, ◌≡◌, arith, Bool, true, false, none, some, List, [], ◌∷◌,
  ◌++◌, count, erase, update, count-append, count-cons, count-nil,
}
use bare_metal_rtos.Time.TimerHost.{CommandId, with_timer, ℤ, TimerCommand, Timer, TimerHost}
use bare_metal_rtos.Time.TimerHost.Commands.{
  execute, execute_restart, anchored, started, execute_reset, execute_set_period, execute_start,
  execute_start_or_reset, execute_stop, Executed, link_back, unlink,
}
use bare_metal_rtos.Time.TimerHost.TickTask.{visit, then_host, expired, is_due}

abbrev pub bit : Bool → ℕ
bit true = 1
bit false = 0

-- What the tick task relies on in a command of a timer.
abbrev pub IsExecutable : CommandId → ℕ → Type 0
IsExecutable CommandId.cmd_shutdown period = ⊥
IsExecutable CommandId.cmd_set_period period = period ≢ 0
IsExecutable _ period = Unit

abbrev pub Linked : (ℕ → Timer) → List ℕ → Type 0
Linked timers active = (u : ℕ) → count u active ≡ bit (timers u).is_active

pub record IsConsistent (h : TimerHost) : Type 0 where
  pub linked : Linked h.timers h.active

-- The call fails no assertion, and leaves a consistent host.
abbrev pub Keeps : Executed → Type 0
Keeps none = ⊥
Keeps (some (next_sleep, h)) = IsConsistent h

-- If the call fails no assertion, it leaves a consistent host.
abbrev pub Allows : Executed → Type 0
Allows none = Unit
Allows (some (next_sleep, h)) = IsConsistent h

module _ (timers : ℕ → Timer) (active : List ℕ) (t : ℕ) (r : Timer) (v : Linked timers active) where
  pub Linked-keep : r.is_active ≡ (timers t).is_active → Linked (update timers t r) active
  Linked-keep e u = ground (arith, v u, v t)

  pub Linked-join :
      (timers t).is_active ≡ false
      → r.is_active ≡ true
      → Linked (update timers t r) (active ++ t ∷ [])
  Linked-join off on u =
      ground (arith, v u, v t, count-append u active (t ∷ []), count-cons u t [], count-nil u)

  pub Linked-leave :
      (timers t).is_active ≡ true
      → r.is_active ≡ false
      → Linked (update timers t r) (erase t active)
  Linked-leave on off u =
      ground (arith, v u, v t, count-erase_self t active, count-erase_ne t u active)

  pub Linked-move :
      (timers t).is_active ≡ true
      → r.is_active ≡ true
      → Linked (update timers t r) (erase t active ++ t ∷ [])
  Linked-move on on' u = ground (
    arith,
    v u,
    v t,
    count-append u (erase t active) (t ∷ []),
    count-cons u t [],
    count-nil u,
    count-erase_self t active,
    count-erase_ne t u active,
  )

pub link_back_lem :
    (t : ℕ) (h : TimerHost)
    → count t h.active ≡ 0
    → link_back t h ≡ some (record h { active = h.active ++ t ∷ [] })
unfolding link_back
link_back_lem t h e = ground arith

pub unlink_lem :
    (t : ℕ) (h : TimerHost)
    → count t h.active ≡ 1
    → unlink t h ≡ some (record h { active = erase t h.active })
unfolding unlink
unlink_lem t h e = ground arith

pub ==-ne : {a : ℕ} → a ≢ 0 → (a == 0) ≡ false
==-ne nz = ground arith

erase_gone : (t : ℕ) (xs : List ℕ) → count t xs ≡ 1 → count t (erase t xs) ≡ 0
erase_gone t xs e = omega (arith, count-erase_self t xs)

module _ (c : TimerCommand) (t : ℕ) (n : ℤ) (h : TimerHost) (v : IsConsistent h) where
  absent : (h.timers t).is_active ≡ false → count t h.active ≡ 0
  absent e = ground (arith, v.linked t)

  present : (h.timers t).is_active ≡ true → count t h.active ≡ 1
  present e = ground (arith, v.linked t)

  execute_start-Keeps : Keeps (execute_start c t n h)
  unfolding execute_start started
  execute_start-Keeps = elim (Bool-cases (h.timers t).is_active) [
    | inl on ↦ rw on v
    | inr off ↦
        rw (off, link_back_lem t (with_timer h t (started c (h.timers t))) (absent off))
          (record { linked = Linked-join h.timers h.active t _ v.linked off refl })
  ]

  execute_stop-Keeps : Keeps (execute_stop t n h)
  unfolding execute_stop
  execute_stop-Keeps = elim (Bool-cases (h.timers t).is_active) [
    | inl on ↦
        let r = record (h.timers t) { is_active = false; is_pending = false } in
        rw (present on) (record { linked = Linked-leave h.timers h.active t r v.linked on refl })
    | inr off ↦
        rw (absent off) (record { linked = Linked-keep h.timers h.active t _ v.linked (sym off) })
  ]

  execute_reset-Keeps : Keeps (execute_reset c t n h)
  unfolding execute_reset anchored
  execute_reset-Keeps = elim (Bool-cases (h.timers t).is_active) [
    | inl on ↦ elim (Bool-cases ((h.timers t).period == 0)) [
      | inl z ↦ rw (on, z) v
      | inr p ↦
          rw (on, p, present on)
            (record { linked = Linked-keep h.timers h.active t _ v.linked (sym on) })
    ]
    | inr off ↦ rw off v
  ]

  execute_set_period-Keeps : c.period ≢ 0 → Keeps (execute_set_period c t n h)
  unfolding execute_set_period
  execute_set_period-Keeps nz = elim (Bool-cases (h.timers t).is_active) [
    | inl on ↦ elim (Bool-cases ((h.timers t).period == 0)) [
      | inl z ↦ rw (==-ne nz, on, z) v
      | inr p ↦
          rw (==-ne nz, on, p, present on)
            (record { linked = Linked-keep h.timers h.active t _ v.linked (sym on) })
    ]
    | inr off ↦ rw (==-ne nz, off) v
  ]

  execute_start_or_reset-Keeps : Keeps (execute_start_or_reset c t h)
  unfolding execute_start_or_reset started anchored
  execute_start_or_reset-Keeps = elim (Bool-cases (h.timers t).is_active) [
    | inl on ↦ elim (Bool-cases ((h.timers t).period == 0)) [
      | inl z ↦ rw (on, z) v
      | inr p ↦
          rw (on, p, present on)
            (record { linked = Linked-keep h.timers h.active t _ v.linked (sym on) })
    ]
    | inr off ↦
        let r = record (started c (h.timers t)) { is_rearming = false } in
        rw (off, link_back_lem t (with_timer h t r) (absent off))
          (record { linked = Linked-join h.timers h.active t r v.linked off refl })
  ]

  execute_restart-Keeps : Keeps (execute_restart c t h)
  unfolding execute_restart started
  execute_restart-Keeps = elim (Bool-cases (h.timers t).is_active) [
    | inl on ↦
        rw (present on, erase_gone t h.active (present on))
          (record { linked = Linked-move h.timers h.active t _ v.linked on refl })
    | inr off ↦
        rw (absent off, absent off)
          (record { linked = Linked-join h.timers h.active t _ v.linked off refl })
  ]

  -- No command fails an assertion, and each leaves a consistent host.
  pub execute-Keeps : (id : CommandId) → IsExecutable id c.period → Keeps (execute id c t n h)
  unfolding execute
  execute-Keeps CommandId.cmd_shutdown ok = elim ok [ ]
  execute-Keeps CommandId.cmd_start ok = execute_start-Keeps
  execute-Keeps CommandId.cmd_stop ok = execute_stop-Keeps
  execute-Keeps CommandId.cmd_reset ok = execute_reset-Keeps
  execute-Keeps CommandId.cmd_restart ok = execute_restart-Keeps
  execute-Keeps CommandId.cmd_start_or_reset ok = execute_start_or_reset-Keeps
  execute-Keeps CommandId.cmd_set_period ok = execute_set_period-Keeps ok

then_host-Allows : (h : TimerHost) (o : Option ℤ) → IsConsistent h → Allows (then_host h o)
then_host-Allows h none v = tt
then_host-Allows h (some n) v = v

module _ (now : ℤ) (t : ℕ) (n : ℤ) (h : TimerHost) (v : IsConsistent h) where
  due-Allows :
      (h.timers t).is_active ≡ true
      → (h.timers t).is_pending ≡ false
      → is_due now (h.timers t) ≡ true
      → Allows (visit now t n h)
  unfolding visit expired
  due-Allows on idle due = elim (Bool-cases ((h.timers t).period == 0)) [
    | inl z ↦
        rw (on, idle, due, z, v.linked t, on)
          (record { linked = Linked-leave h.timers h.active t _ v.linked on refl })
    | inr p ↦
        rw (on, idle, due, p)
          (then_host-Allows _ _
            (record { linked = Linked-keep h.timers h.active t _ v.linked (sym on) }))
  ]

  -- A visit whose assertions hold leaves a consistent host.
  pub visit-Allows : Allows (visit now t n h)
  visit-Allows = elim (Bool-cases (h.timers t).is_active) [
    | inl on ↦ elim (Bool-cases (h.timers t).is_pending) [
      | inl busy ↦ unfold visit in (rw (on, busy) v)
      | inr idle ↦ elim (Bool-cases (is_due now (h.timers t))) [
        | inl due ↦ due-Allows on idle due
        | inr early ↦ unfold visit in (rw (on, idle, early) (then_host-Allows h _ v))
      ]
    ]
    | inr off ↦ unfold visit in (rw (off, v.linked t, off) tt)
  ]
