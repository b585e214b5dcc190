-- ===== src/Receipts/Updates.antt =====
-- engine/src/engine/options/execution_outbox.py: the version that a caller expects, against what other
-- processes append after it has read.
use ibkr_strategy_engine.Prelude.{
  ◌≡◌, refl, sym, ap, ◌∙◌, subst, ◌<◌, String, Bool, true, false, ◌&&◌, str_eq, eq_iff, Option,
  none, some, List, [], ◌∷◌, ◌++◌, is_empty, strip, arith, ◌⊎◌, inl, inr, Bool-cases,
}
use ibkr_strategy_engine.Prelude.Result.{Result, ok, err, ok-injective}
use ibkr_strategy_engine.Receipts.{
  Receipt, ReceiptError, JournalFile, Disk, Journal, AppendCall, current_version, by_key, for_saga,
  is_stale, new_receipt, read, is_line, lines, with_line, write_line, append_once, append_to,
  append, append_all,
}
use ibkr_strategy_engine.Receipts.Versions.{current_version-append}

-- The saga has the same receipts, or a higher version.
abbrev IsAhead : String → List Receipt → List Receipt → Type 0
IsAhead saga rs rs' =
    (for_saga saga rs' ≡ for_saga saga rs) × (current_version saga rs' ≡ current_version saga rs)
    ⊎ (current_version saga rs < current_version saga rs')

IsAhead-same : (saga : String) (rs : List Receipt) → IsAhead saga rs rs
IsAhead-same saga rs = inl (refl, refl)

IsAhead-then :
    (saga : String) (a b c : List Receipt) → IsAhead saga a b → IsAhead saga b c → IsAhead saga a c
IsAhead-then saga a b c (inl (s, v)) (inl (t, w)) = inl (t ∙ s, w ∙ v)
IsAhead-then saga a b c (inl (s, v)) (inr more) = inr (omega arith)
IsAhead-then saga a b c (inr more) (inl (t, w)) = inr (omega arith)
IsAhead-then saga a b c (inr more) (inr more') = inr (omega arith)

for_saga-append :
    (saga : String) (rs : List Receipt) (r : Receipt)
    → str_eq r.saga_id saga ≡ false
    → for_saga saga (rs ++ r ∷ []) ≡ for_saga saga rs
for_saga-append saga [] r other = rw other refl
for_saga-append saga (x ∷ rs) r other = ground (arith, for_saga-append saga rs r)

IsAhead-new_receipt :
    (saga : String) (rs : List Receipt) (q : AppendCall)
    → IsAhead saga rs (rs ++ new_receipt q (current_version q.saga_id rs) ∷ [])
IsAhead-new_receipt saga rs q =
    let r = new_receipt q (current_version q.saga_id rs) in
    elim (Bool-cases (str_eq q.saga_id saga)) [
      | inl mine ↦
          let last = ap (λ (s : String). current_version s rs) ((eq_iff q.saga_id saga).0 mine) in
          inr (ground (arith, current_version-append saga rs r))
      | inr other ↦
          inl (for_saga-append saga rs r other, rw (current_version-append saga rs r, other) refl)
    ]

-- A file that can be read, and is ahead.
abbrev IsNext : String → List Receipt → JournalFile → Type 0
IsNext saga rs JournalFile.unreadable = Unit
IsNext saga rs (JournalFile.readable rs') = IsAhead saga rs rs'
IsNext saga rs (JournalFile.unended rs') = IsAhead saga rs rs'

lines-IsNext :
    (saga : String) (rs rs' : List Receipt) (ended : Bool)
    → IsAhead saga rs rs'
    → IsNext saga rs (lines ended rs')
lines-IsNext saga rs rs' true v = v
lines-IsNext saga rs rs' false v = v

with_line-IsNext :
    (saga : String) (r : Receipt) (rs : List Receipt) (ended ends : Bool)
    → IsAhead saga rs (rs ++ r ∷ [])
    → IsNext saga rs (with_line r rs ended ends)
with_line-IsNext saga r rs ended ends v = elim (Bool-cases (ended && is_line r)) [
  | inl whole ↦ rw whole (lines-IsNext saga rs (rs ++ r ∷ []) ends v)
  | inr split ↦ rw split tt
]

write_line-IsNext :
    (saga : String) (r : Receipt) (rs : List Receipt) (ended : Bool) (d : Disk)
    → IsAhead saga rs (rs ++ r ∷ [])
    → IsNext saga rs (write_line r rs ended d).1.file
write_line-IsNext saga r rs ended Disk.works v = with_line-IsNext saga r rs ended true v
write_line-IsNext saga r rs ended Disk.refuses v =
    lines-IsNext saga rs rs ended (IsAhead-same saga rs)
write_line-IsNext saga r rs ended Disk.cuts v = tt
write_line-IsNext saga r rs ended Disk.cuts_newline v = with_line-IsNext saga r rs ended false v
write_line-IsNext saga r rs ended Disk.unsynced v = with_line-IsNext saga r rs ended true v

append_once-IsNext :
    (saga : String) (q : AppendCall) (rs : List Receipt) (ended : Bool) (d : Disk)
    (o : Option Receipt)
    → IsNext saga rs (append_once q rs ended d o).1.file
append_once-IsNext saga q rs ended d (some r) = lines-IsNext saga rs rs ended (IsAhead-same saga rs)
append_once-IsNext saga q rs ended d none =
    elim (Bool-cases (is_stale q.expected_version (current_version q.saga_id rs))) [
      | inl stale ↦ rw stale (lines-IsNext saga rs rs ended (IsAhead-same saga rs))
      | inr current ↦ rw current (
          write_line-IsNext saga (new_receipt q (current_version q.saga_id rs)) rs ended d
            (IsAhead-new_receipt saga rs q))
    ]

append-IsNext :
    (saga : String) (q : AppendCall) (rs : List Receipt) (ended : Bool) (d : Disk)
    → IsNext saga rs (append q (record { file = lines ended rs; disk = d })).1.file
unfolding append
append-IsNext saga q rs ended d = elim (Bool-cases (is_empty (strip q.saga_id))) [
  | inl unnamed ↦ rw unnamed (lines-IsNext saga rs rs ended (IsAhead-same saga rs))
  | inr named ↦ rw named (by_end ended)
]
  where
    by_end : (ended : Bool) → IsNext saga rs (append_to q d (lines ended rs)).1.file
    by_end true = append_once-IsNext saga q rs true d (by_key q.idempotency_key rs)
    by_end false = append_once-IsNext saga q rs false d (by_key q.idempotency_key rs)

append_unreadable :
    (q : AppendCall) (d : Disk)
    → (append q (record { file = JournalFile.unreadable; disk = d })).1
      ≡ record { file = JournalFile.unreadable; disk = d }
unfolding append
append_unreadable q d = elim (Bool-cases (is_empty (strip q.saga_id))) [
  | inl unnamed ↦ rw unnamed refl
  | inr named ↦ rw named refl
]

append_all-IsNext :
    (saga : String) (rs : List Receipt) (calls : List (AppendCall × Disk)) (j : Journal)
    → IsNext saga rs j.file
    → IsNext saga rs (append_all calls j).file
append_all-IsNext saga rs [] j v = v
append_all-IsNext saga rs ((q, d) ∷ calls) j v =
    append_all-IsNext saga rs calls _ (by_file j.file v)
  where
    further :
        (rs' : List Receipt) (f : JournalFile)
        → IsAhead saga rs rs'
        → IsNext saga rs' f
        → IsNext saga rs f
    further rs' JournalFile.unreadable v w = tt
    further rs' (JournalFile.readable rs'') v w = IsAhead-then saga rs rs' rs'' v w
    further rs' (JournalFile.unended rs'') v w = IsAhead-then saga rs rs' rs'' v w

    by_file :
        (f : JournalFile)
        → IsNext saga rs f
        → IsNext saga rs (append q (record { file = f; disk = d })).1.file
    by_file JournalFile.unreadable v = rw (append_unreadable q d) tt
    by_file (JournalFile.readable rs') v = further rs' _ v (append-IsNext saga q rs' true d)
    by_file (JournalFile.unended rs') v = further rs' _ v (append-IsNext saga q rs' false d)

-- A call that expects the version that its caller has read appends a new receipt only if the saga still
-- has the receipts that the caller read, whatever other processes appended in between and whatever
-- failures of the disk they had.
pub no_lost_update :
    (q : AppendCall) (others : List (AppendCall × Disk)) (j : Journal) (rs rs' : List Receipt)
    (d : Disk) (r : Receipt)
    → read j.file ≡ ok rs
    → read (append_all others j).file ≡ ok rs'
    → q.expected_version ≡ some (current_version q.saga_id rs)
    → by_key q.idempotency_key rs' ≡ none
    → (append q (record { file = (append_all others j).file; disk = d })).0 ≡ ok r
    → for_saga q.saga_id rs' ≡ for_saga q.saga_id rs
unfolding append
no_lost_update q others j rs rs' d r was e expected fresh appended = elim ahead [
  | inl (same, _) ↦ same
  | inr more ↦ elim (Bool-cases (is_empty (strip q.saga_id))) [
    | inl unnamed ↦ absurd (refused (rw unnamed at appended))
    | inr named ↦
        let stale : is_stale q.expected_version (current_version q.saga_id rs') ≡ true =
          rw expected (ground arith) in
        absurd (conflict (append_all others j).file stale e (rw named at appended))
  ]
]
  where
    reads : (f : JournalFile) → read f ≡ ok rs' → IsNext q.saga_id rs f → IsAhead q.saga_id rs rs'
    reads JournalFile.unreadable e v = absurd (ground arith)
    reads (JournalFile.readable xs) e v = subst (IsAhead q.saga_id rs) (ok-injective e) v
    reads (JournalFile.unended xs) e v = subst (IsAhead q.saga_id rs) (ok-injective e) v

    start : (f : JournalFile) → read f ≡ ok rs → IsNext q.saga_id rs f
    start JournalFile.unreadable e = tt
    start (JournalFile.readable xs) e =
        subst (IsAhead q.saga_id rs) (sym (ok-injective e)) (IsAhead-same q.saga_id rs)
    start (JournalFile.unended xs) e =
        subst (IsAhead q.saga_id rs) (sym (ok-injective e)) (IsAhead-same q.saga_id rs)

    ahead : IsAhead q.saga_id rs rs'
    ahead =
        reads (append_all others j).file e
          (append_all-IsNext q.saga_id rs others j (start j.file was))

    refused : {cause : ReceiptError} → ◌≡◌ {A = Result ReceiptError Receipt} (err cause) (ok r) → ⊥
    refused h = ground arith

    conflict :
        (f : JournalFile)
        → is_stale q.expected_version (current_version q.saga_id rs') ≡ true
        → read f ≡ ok rs'
        → (append_to q d f).0 ≡ ok r
        → ⊥
    conflict JournalFile.unreadable stale e h = refused h
    conflict (JournalFile.readable xs) stale e h =
        let same = ok-injective e in refused (rw (same, fresh, stale) at h)
    conflict (JournalFile.unended xs) stale e h =
        let same = ok-injective e in refused (rw (same, fresh, stale) at h)
