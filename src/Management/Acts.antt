-- ===== src/Management/Acts.antt =====
-- engine/src/engine/options/lifecycle.py: when a position is acted on.
use native.Mathlib.Nat.{mul-add}
use ibkr_strategy_engine.Prelude.{
  ◌≡◌, ap, ◌↔◌, ◌⊎◌, sym, ◌∙◌, pos, ◌-ℤ◌, ◌≤ℤ◌, ◌-◌, ◌+◌, refl, subst, ℕ, ◌*◌, ◌≤◌, ◌==◌, ℤ, leb_ℤ,
  Bool, true, false, ◌||◌, ◌&&◌, Option, none, some, arith, inl, inr, Bool-cases,
}
use ibkr_strategy_engine.Governor.Policy.{scale}
use ibkr_strategy_engine.Management.{
  ReasonCode, PositionState, is_manageable, OpenPosition, PositionMark, ManagementPolicy,
  ManagementDecision, dte, profit_target_debit, mark_refusal, take_profit, reaches_target,
  by_calendar, decide_management_action, acts,
}

some_eq : {x d : ManagementDecision} → ◌≡◌ {A = Option ManagementDecision} (some x) (some d) → x ≡ d
some_eq h = cc

same_acts : {x d : ManagementDecision} (b : Bool) → some x ≡ some d → acts x ≡ b → acts d ≡ b
same_acts b h e = subst (λ (y : ManagementDecision). acts y ≡ b) (some_eq h) e

acts-take_profit :
    (p : OpenPosition) (target : ℕ) (d : ManagementDecision)
    → take_profit p target ≡ some d
    → acts d ≡ true
acts-take_profit p target d h = elim (Bool-cases (target == 0)) [
  | inl free ↦ absurd (nothing (rw free at h))
  | inr priced ↦ same_acts true (rw priced at h) refl
]
  where
    nothing : ◌≡◌ {A = Option ManagementDecision} none (some d) → ⊥
    nothing h = ground arith

acts-by_calendar :
    (p : OpenPosition) (policy : ManagementPolicy) (mark : Option PositionMark)
    (refusal : Option ReasonCode) (today : ℕ)
    → acts (by_calendar p policy mark refusal today) ≡ leb_ℤ (dte p today) policy.management_dte
acts-by_calendar p policy mark refusal today =
    elim (Bool-cases (leb_ℤ (dte p today) policy.management_dte)) [
      | inl due ↦ elim (Bool-cases policy.roll_at_management_dte) [
        | inl rolls ↦ rw (due, rolls) refl
        | inr exits ↦ rw (due, exits) refl
      ]
      | inr early ↦ rw early refl
    ]

decide_acts_lem :
    (p : OpenPosition) (policy : ManagementPolicy) (mark : Option PositionMark) (now : ℤ)
    (today : ℕ) (d : ManagementDecision)
    → decide_management_action p policy mark now today ≡ some d
    → acts d ≡ (
        is_manageable p.state
        && (reaches_target
              (mark_refusal mark now policy)
              mark
              (profit_target_debit p.filled_credit policy.profit_target_fraction)
            || leb_ℤ (dte p today) policy.management_dte))
unfolding decide_management_action
decide_acts_lem p policy mark now today d h = elim (Bool-cases (is_manageable p.state)) [
  | inr settled ↦ rw settled (same_acts false (rw settled at h) refl)
  | inl managed ↦
      let target = profit_target_debit p.filled_credit policy.profit_target_fraction in
      elim (Bool-cases (reaches_target (mark_refusal mark now policy) mark target)) [
        | inl reached ↦
            rw (managed, reached) (acts-take_profit p target d (rw (managed, reached) at h))
        | inr short ↦
            rw (managed, short)
              (same_acts (leb_ℤ (dte p today) policy.management_dte) (rw (managed, short) at h)
                (acts-by_calendar p policy mark (mark_refusal mark now policy) today))
      ]
]

-- A live mark that is not too old, at which the profit, the credit less the debit, is at least its fraction of
-- the credit.
pub record HasReached (p : OpenPosition) (policy : ManagementPolicy) (now : ℤ) (mark : PositionMark)
    : Type 0 where
  pub live : mark.is_live ≡ true
  pub recent : now -ℤ mark.as_of ≤ℤ policy.quote_maximum_age
  pub captured :
      p.filled_credit * policy.profit_target_fraction + mark.debit_to_close
      ≤ p.filled_credit * scale

split_credit :
    (credit fraction : ℕ)
    → fraction ≤ scale
    → credit * (scale - fraction) + credit * fraction ≡ credit * scale
split_credit credit fraction h =
    sym (mul-add credit (scale - fraction) fraction) ∙ ap (λ (n : ℕ). credit * n) (omega arith)

some_mark : {x m : PositionMark} → ◌≡◌ {A = Option PositionMark} (some x) (some m) → x ≡ m
some_mark h = cc

open_state : (s : PositionState) → is_manageable s ≡ true → s ≡ PositionState.is_open
open_state PositionState.is_open h = refl
open_state PositionState.opening h = absurd (ground arith)
open_state PositionState.closing h = absurd (ground arith)
open_state PositionState.closed h = absurd (ground arith)
open_state PositionState.rolled h = absurd (ground arith)
open_state PositionState.uncertain h = absurd (ground arith)

reached_iff :
    (p : OpenPosition) (policy : ManagementPolicy) (mark : Option PositionMark) (now : ℤ)
    → policy.profit_target_fraction ≤ scale
    → (reaches_target
          (mark_refusal mark now policy)
          mark
          (profit_target_debit p.filled_credit policy.profit_target_fraction)
        ≡ true)
      ↔ ((m : PositionMark) × (mark ≡ some m) × HasReached p policy now m)
reached_iff p policy none now h = (λ e. absurd (ground arith), λ (m, e, _). absurd (ground arith))
reached_iff p policy (some m) now h = (
  λ e. (
    m,
    refl,
    record {
      live = ground arith;
      recent = ground arith;
      captured = ground (arith, split_credit p.filled_credit policy.profit_target_fraction h);
    },
  ),
  λ (x, e, v).
      let own = subst (HasReached p policy now) (some_mark (sym e)) v in
      let live = own.live in
      let recent = own.recent in
      let captured = own.captured in
      ground (arith, split_credit p.filled_credit policy.profit_target_fraction h),
)

-- Exactly when a decision acts: on an open position, when there is a live mark, not too old, at which the
-- fraction of the credit is captured, or when the days to expiry are at or inside the threshold, whether or
-- not there is a usable mark; for a profit target fraction of at most one.
pub decide_acts_iff :
    (p : OpenPosition) (policy : ManagementPolicy) (mark : Option PositionMark) (now : ℤ)
    (today : ℕ) (d : ManagementDecision)
    → policy.profit_target_fraction ≤ scale
    → decide_management_action p policy mark now today ≡ some d
    → (acts d ≡ true) ↔ (
        (p.state ≡ PositionState.is_open)
        × (((m : PositionMark) × (mark ≡ some m) × HasReached p policy now m)
            ⊎ (pos p.intent.expiration -ℤ pos today ≤ℤ policy.management_dte)))
decide_acts_iff p policy mark now today d h decided =
    let when = decide_acts_lem p policy mark now today d decided in
    let (to, from) = reached_iff p policy mark now h in
    (
      λ acted. (
        open_state p.state (ground arith),
        elim (Bool-cases (leb_ℤ (dte p today) policy.management_dte)) [
          | inl due ↦ inr (ground arith)
          | inr early ↦ inl (to (ground arith))
        ],
      ),
      λ (opened, why).
          let managed : is_manageable p.state ≡ true = rw opened refl in
          elim why [
            | inl reached ↦ when ∙ rw managed (rw (from reached) refl)
            | inr due ↦
                let late : leb_ℤ (dte p today) policy.management_dte ≡ true = ground arith in
                ground arith
          ],
    )
