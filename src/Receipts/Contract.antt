-- ===== src/Receipts/Contract.antt =====
-- engine/src/engine/options/execution_outbox.py: what `ReceiptJournal.append` promises, without the lines of
-- the file: a counter for each saga that is compared and set, and the receipt of each key.
use ibkr_strategy_engine.Prelude.{
  ◌≡◌, refl, ap, subst, ℕ, ◌+◌, ◌==◌, not, Bool, true, false, String, str_eq, eq_iff, Option, none,
  some, List, [], ◌∷◌, ◌++◌, is_empty, strip, if◌then◌else◌, arith, inl, inr, Bool-cases,
  Option-cases,
}
use ibkr_strategy_engine.Prelude.Result.{Result, ok, err}
use ibkr_strategy_engine.Receipts.{
  Receipt, ReceiptError, JournalFile, Disk, AppendCall, current_version, find_key, by_key, is_stale,
  new_receipt, is_line, append,
}
use ibkr_strategy_engine.Receipts.Versions.{current_version-append}

pub record Counters : Type 0 where
  pub version : String → ℕ
  pub receipt : String → Option Receipt

-- What the lines of a file are to a caller.
abbrev pub view : List Receipt → Counters
view rs = record { version = λ saga. current_version saga rs; receipt = λ key. by_key key rs }

abbrev pub record_in : Receipt → Counters → Counters
record_in r c = record {
  version = λ saga. if str_eq r.saga_id saga then r.version else c.version saga;
  receipt = λ key.
      if str_eq r.idempotency_key key
      then (if is_empty key then none else some r)
      else c.receipt key;
}

-- The receipt of a call, with its version.
abbrev pub receipt_of : AppendCall → ℕ → Receipt
receipt_of q version = record {
  receipt_id = q.fresh;
  kind = q.kind;
  saga_id = q.saga_id;
  version = version;
  at = q.at;
  idempotency_key = q.idempotency_key;
  payload = q.payload;
}

-- A caller that names no version agrees with each.
abbrev pub expects : Option ℕ → ℕ → Bool
expects none version = true
expects (some expected) version = expected == version

-- A receipt under a known key is given again; where the caller expects another version, it is refused; else
-- the counter of the saga is set one higher, and the receipt with that version is recorded.
abbrev pub set_once :
    AppendCall → Counters → Option Receipt → Result ReceiptError Receipt × Counters
set_once q c (some r) = (ok r, c)
set_once q c none =
    if expects q.expected_version (c.version q.saga_id)
    then (
      ok (receipt_of q (c.version q.saga_id + 1)),
      record_in (receipt_of q (c.version q.saga_id + 1)) c,
    )
    else (err ReceiptError.receipt_conflict, c)

unfoldable pub set_counter : AppendCall → Counters → Result ReceiptError Receipt × Counters
set_counter q c =
    if is_empty (strip q.saga_id)
    then (err ReceiptError.no_saga, c)
    else set_once q c (c.receipt q.idempotency_key)

-- The counters are the same to every caller.
pub record IsSame (c d : Counters) : Type 0 where
  pub version : (saga : String) → c.version saga ≡ d.version saga
  pub receipt : (key : String) → c.receipt key ≡ d.receipt key

same : (c : Counters) → IsSame c c
same c = record { version = λ saga. refl; receipt = λ key. refl }

find_key-append :
    (key : String) (rs : List Receipt) (r : Receipt)
    → find_key key (rs ++ r ∷ []) ≡ elim (find_key key rs) [
      | some x ↦ some x
      | none ↦ if str_eq r.idempotency_key key then some r else none
    ]
unfolding find_key
find_key-append key [] r = refl
find_key-append key (x ∷ rs) r = ground (arith, find_key-append key rs r)

-- The lines with a new receipt, whose key named none.
module _ (rs : List Receipt) (q : AppendCall) (fresh : by_key q.idempotency_key rs ≡ none) where
  next : Receipt
  next = new_receipt q (current_version q.saga_id rs)

  next_version :
      (saga : String)
      → current_version saga (rs ++ next ∷ [])
        ≡ (if str_eq q.saga_id saga then next.version else current_version saga rs)
  unfolding next
  next_version saga = elim (Bool-cases (str_eq q.saga_id saga)) [
    | inl mine ↦
        let last = ap (λ (s : String). current_version s rs) ((eq_iff q.saga_id saga).0 mine) in
        ground (arith, current_version-append saga rs next)
    | inr other ↦ rw (current_version-append saga rs next, other) refl
  ]

  next_receipt :
      (key : String)
      → by_key key (rs ++ next ∷ []) ≡ (
          if str_eq q.idempotency_key key
          then if is_empty key then none else some next
          else by_key key rs)
  unfolding next
  next_receipt key = elim (Bool-cases (is_empty key)) [
    | inl unnamed ↦ ground arith
    | inr named ↦ elim (Bool-cases (str_eq q.idempotency_key key)) [
      | inl mine ↦
          let none_yet : by_key key rs ≡ none =
            subst (λ (k : String). by_key k rs ≡ none) ((eq_iff q.idempotency_key key).0 mine)
              fresh in
          rw (named, mine) (rw (find_key-append key rs next, rw named at none_yet, mine) refl)
      | inr other ↦ elim (Option-cases (find_key key rs)) [
        | inl unknown ↦ rw (named, other) (rw (find_key-append key rs next, unknown, other) refl)
        | inr (x, known) ↦ rw (named, other) (rw (find_key-append key rs next, known) refl)
      ]
    ]
  ]

  view-append : IsSame (view (rs ++ next ∷ [])) (record_in next (view rs))
  unfolding next
  view-append = record { version = next_version; receipt = next_receipt }

is_stale-expects :
    (expected : Option ℕ) (version : ℕ) → is_stale expected version ≡ not (expects expected version)
is_stale-expects none version = refl
is_stale-expects (some expected) version = ground arith

-- On a journal whose file can be read and ends with a newline, on a disk that works, and for strings that
-- `splitlines` keeps on one line, an append gives what the contract gives, and leaves lines that are, to every
-- later caller, the counters that the contract leaves.
pub append_refines :
    (q : AppendCall) (rs : List Receipt)
    → is_line (receipt_of q (current_version q.saga_id rs + 1)) ≡ true
    → ((append q (record { file = JournalFile.readable rs; disk = Disk.works })).0
        ≡ (set_counter q (view rs)).0)
      × (rs' : List Receipt) × ((append q
            (record { file = JournalFile.readable rs; disk = Disk.works })).1
          ≡ record { file = JournalFile.readable rs'; disk = Disk.works })
      × IsSame (view rs') (set_counter q (view rs)).1
unfolding append set_counter next
append_refines q rs whole = elim (Bool-cases (is_empty (strip q.saga_id))) [
  | inl unnamed ↦ rw unnamed (refl, rs, refl, same (view rs))
  | inr named ↦ elim (Option-cases (by_key q.idempotency_key rs)) [
    | inr (r, known) ↦ rw (named, known) (refl, rs, refl, same (view rs))
    | inl fresh ↦
        let compared = is_stale-expects q.expected_version (current_version q.saga_id rs) in
        elim (Bool-cases (expects q.expected_version (current_version q.saga_id rs))) [
          | inl current ↦
              let live : is_stale q.expected_version (current_version q.saga_id rs) ≡ false =
                ground arith in
              rw (named, fresh, live, current)
                (rw whole (
                  refl,
                  rs ++ new_receipt q (current_version q.saga_id rs) ∷ [],
                  refl,
                  view-append rs q fresh,
                ))
          | inr other ↦
              let stale : is_stale q.expected_version (current_version q.saga_id rs) ≡ true =
                ground arith in
              rw (named, fresh, stale, other) (refl, rs, refl, same (view rs))
        ]
  ]
]
