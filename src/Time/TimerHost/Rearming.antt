-- ===== src/Time/TimerHost/Rearming.antt =====
-- The command queue of stk::time::TimerHost of stk/include/time/stk_time_timer.h: what the tick task relies on in the
-- commands, how many of them restart a timer, and PushCommand().
use bare_metal_rtos.Base.{
  ap, ℕ, ◌+◌, ◌≡◌, ◌≤◌, arith, true, Option, none, some, List, [], ◌∷◌, ◌++◌, leb, if◌then◌else◌,
  inl, inr, Bool-cases, same, length,
}
use bare_metal_rtos.Time.TimerHost.{
  push_command, TimerHost, TimerCommand, CommandId, is_rearm, write_command, push_rearm,
  timer_count_max,
}
use bare_metal_rtos.Time.TimerHost.Consistent.{bit, IsExecutable, IsConsistent}

abbrev pub IsSendable : CommandId → Option ℕ → ℕ → Type 0
IsSendable CommandId.cmd_shutdown timer period = Unit
IsSendable id none period = ⊥
IsSendable id (some t) period = IsExecutable id period

abbrev pub AllSendable : List TimerCommand → Type 0
AllSendable [] = Unit
AllSendable (c ∷ cs) = IsSendable c.cmd c.timer c.period × AllSendable cs

-- 1 for a command that restarts the timer `t`.
abbrev pub rearms : ℕ → CommandId → Option ℕ → ℕ
rearms t id none = 0
rearms t id (some u) = if is_rearm id then same u t else 0

unfoldable pub count_rearms : ℕ → List TimerCommand → ℕ
count_rearms t [] = 0
count_rearms t (c ∷ cs) = rearms t c.cmd c.timer + count_rearms t cs

pub record IsSound (h : TimerHost) : Type 0 where
  pub consistent : IsConsistent h
  pub sendable : AllSendable h.commands
  -- a timer has at most one restart in the queue, and only while it is marked
  pub coalesced : (t : ℕ) → count_rearms t h.commands ≤ bit (h.timers t).is_rearming

pub AllSendable-append :
    (cs : List TimerCommand) (c : TimerCommand)
    → AllSendable cs
    → IsSendable c.cmd c.timer c.period
    → AllSendable (cs ++ c ∷ [])
AllSendable-append [] c a s = (s, tt)
AllSendable-append (d ∷ cs) c a s = (a.0, AllSendable-append cs c a.1 s)

pub count_rearms-append :
    (t : ℕ) (cs : List TimerCommand) (c : TimerCommand)
    → count_rearms t (cs ++ c ∷ []) ≡ count_rearms t cs + rearms t c.cmd c.timer
unfolding count_rearms
count_rearms-append t [] c = omega arith
count_rearms-append t (d ∷ cs) c = omega (arith, count_rearms-append t cs c)

module _ (c : TimerCommand) (h : TimerHost) (v : IsSound h) where
  -- A command that restarts no timer.
  pub write_command-IsSound :
      IsSendable c.cmd c.timer c.period
      → ((t : ℕ) → rearms t c.cmd c.timer ≡ 0)
      → IsSound (write_command c h).1
  unfolding write_command
  write_command-IsSound s none_of = elim (Bool-cases (leb timer_count_max (length h.commands))) [
    | inl full ↦ rw full v
    | inr room ↦ rw room (record {
      consistent = record { linked = v.consistent.linked };
      sendable = AllSendable-append h.commands c v.sendable s;
      coalesced = λ t. omega (arith, count_rearms-append t h.commands c, none_of t, v.coalesced t);
    })
  ]

  pub push_rearm-IsSound :
      (t : ℕ)
      → IsSendable c.cmd c.timer c.period
      → c.timer ≡ some t
      → is_rearm c.cmd ≡ true
      → IsSound (push_rearm t c h).1
  unfolding push_rearm write_command
  push_rearm-IsSound t s e r = elim (Bool-cases (h.timers t).is_rearming) [
    | inl on ↦ rw on v
    | inr off ↦ elim (Bool-cases (leb timer_count_max (length h.commands))) [
      | inl full ↦
          rw (off, full)
            (record {
              consistent = record { linked = λ u. ground (arith, v.consistent.linked u) };
              sendable = v.sendable;
              coalesced = λ u. ground (arith, v.coalesced u);
            })
      | inr room ↦
          rw (off, room)
            (record {
              consistent = record { linked = λ u. ground (arith, v.consistent.linked u) };
              sendable = AllSendable-append h.commands c v.sendable s;
              coalesced = λ u. ground (arith, count_rearms-append u h.commands c, v.coalesced u);
            })
    ]
  ]

push_command_cases :
    (c : TimerCommand) (h : TimerHost) (timer : Option ℕ)
    → c.timer ≡ timer
    → push_command c h ≡ (elim timer [
      | none ↦ write_command c h
      | some t ↦ if is_rearm c.cmd then push_rearm t c h else write_command c h
    ])
unfolding push_command
push_command_cases c h none e = ground arith
push_command_cases c h (some t) e = ground arith

pub push_command-IsSound :
    (c : TimerCommand) (h : TimerHost) (timer : Option ℕ)
    → c.timer ≡ timer
    → IsSound h
    → IsSendable c.cmd c.timer c.period
    → IsSound (push_command c h).1
push_command-IsSound c h none e v s =
    rw (push_command_cases c h none e) (write_command-IsSound c h v s (λ t. ap (rearms t c.cmd) e))
push_command-IsSound c h (some t) e v s = elim (Bool-cases (is_rearm c.cmd)) [
  | inl on ↦ rw (push_command_cases c h (some t) e, on) (push_rearm-IsSound c h v t s e on)
  | inr off ↦
      rw (push_command_cases c h (some t) e, off)
        (write_command-IsSound c h v s (λ u. ground arith))
]
