-- ===== src/Receipts/Versions.antt =====
-- engine/src/engine/options/execution_outbox.py: what every sequence of appends leaves in the journal.
use ibkr_strategy_engine.Prelude.{
  ◌≡◌, refl, sym, ap, ◌∙◌, subst, ℕ, zero, suc, ◌+◌, ◌≤◌, String, Bool, true, false, ◌&&◌, str_eq,
  eq_iff, none, List, [], ◌∷◌, ◌++◌, is_empty, strip, length, if◌then◌else◌, arith, inl, inr,
  Bool-cases, Option-cases,
}
use ibkr_strategy_engine.Prelude.Result.{ok, ok-injective}
use ibkr_strategy_engine.Receipts.{
  Receipt, JournalFile, Disk, Journal, AppendCall, max, current_version, find_key, by_key, is_stale,
  new_receipt, read, is_line, lines, with_line, write_line, append_once, append_to, append,
  append_all,
}

-- The versions of the receipts of a saga, in the order of the file.
abbrev pub versions : String → List Receipt → List ℕ
versions saga [] = []
versions saga (r ∷ rs) =
    let rest = versions saga rs in if str_eq r.saga_id saga then r.version ∷ rest else rest

-- `n`, then the `count - 1` numbers after it.
abbrev pub count_up : ℕ → ℕ → List ℕ
count_up n zero = []
count_up n (suc count) = n ∷ count_up (n + 1) count

abbrev pub times_used : String → List Receipt → ℕ
times_used key [] = 0
times_used key (r ∷ rs) =
    let rest = times_used key rs in if str_eq r.idempotency_key key then rest + 1 else rest

abbrev pub no_receipts : Journal
no_receipts = record { file = JournalFile.readable []; disk = Disk.works }

-- The state of the file between calls.
record IsNumbered (rs : List Receipt) : Type 0 where
  numbered : (saga : String) → versions saga rs ≡ count_up 1 (length (versions saga rs))
  counted : (saga : String) → current_version saga rs ≡ length (versions saga rs)
  once : (key : String) → is_empty key ≡ false → times_used key rs ≤ 1

pub current_version-append :
    (saga : String) (rs : List Receipt) (r : Receipt)
    → current_version saga (rs ++ r ∷ []) ≡ (
        if str_eq r.saga_id saga
        then max (current_version saga rs) r.version
        else current_version saga rs)
unfolding current_version
current_version-append saga [] r = ground arith
current_version-append saga (x ∷ rs) r = ground (arith, current_version-append saga rs r)

versions-append :
    (saga : String) (rs : List Receipt) (r : Receipt)
    → versions saga (rs ++ r ∷ [])
      ≡ (if str_eq r.saga_id saga then versions saga rs ++ r.version ∷ [] else versions saga rs)
versions-append saga [] r = refl
versions-append saga (x ∷ rs) r = ground (arith, versions-append saga rs r)

count_up-append : (n count : ℕ) → count_up n count ++ (n + count) ∷ [] ≡ count_up n (count + 1)
count_up-append n zero = ground arith
count_up-append n (suc count) = ground (arith, count_up-append (n + 1) count)

length-append_one : (ns : List ℕ) (n : ℕ) → length (ns ++ n ∷ []) ≡ length ns + 1
length-append_one [] n = refl
length-append_one (x ∷ ns) n = omega (arith, length-append_one ns n)

times_used-append :
    (key : String) (rs : List Receipt) (r : Receipt)
    → times_used key (rs ++ r ∷ [])
      ≡ (if str_eq r.idempotency_key key then times_used key rs + 1 else times_used key rs)
times_used-append key [] r = refl
times_used-append key (x ∷ rs) r = ground (arith, times_used-append key rs r)

times_used-find_key :
    (key : String) (rs : List Receipt) → find_key key rs ≡ none → times_used key rs ≡ 0
unfolding find_key
times_used-find_key key [] h = refl
times_used-find_key key (r ∷ rs) h = ground (arith, times_used-find_key key rs)

-- A receipt with the next version, under a key that names no other.
module _ (rs : List Receipt) (q : AppendCall) (v : IsNumbered rs)
    (fresh : by_key q.idempotency_key rs ≡ none) where
  next : Receipt
  next = new_receipt q (current_version q.saga_id rs)

  next_numbered :
      (saga : String)
      → versions saga (rs ++ next ∷ []) ≡ count_up 1 (length (versions saga (rs ++ next ∷ [])))
  unfolding next
  next_numbered saga = elim (Bool-cases (str_eq q.saga_id saga)) [
    | inl mine ↦
        let e = (eq_iff q.saga_id saga).0 mine in
        let n = length (versions saga rs) in
        let last : current_version q.saga_id rs + 1 ≡ 1 + n =
          subst (λ (s : String). current_version s rs + 1 ≡ 1 + n) (sym e)
            (omega (arith, v.counted saga)) in
        rw (versions-append saga rs next, mine, last)
          (rw (length-append_one (versions saga rs) (1 + n))
            (ap (λ (ns : List ℕ). ns ++ (1 + n) ∷ []) (v.numbered saga) ∙ count_up-append 1 n))
    | inr other ↦ rw (versions-append saga rs next, other) (v.numbered saga)
  ]

  next_counted :
      (saga : String)
      → current_version saga (rs ++ next ∷ []) ≡ length (versions saga (rs ++ next ∷ []))
  unfolding next
  next_counted saga = elim (Bool-cases (str_eq q.saga_id saga)) [
    | inl mine ↦
        let e = (eq_iff q.saga_id saga).0 mine in
        let last : current_version q.saga_id rs ≡ length (versions saga rs) =
          subst (λ (s : String). current_version s rs ≡ length (versions saga rs)) (sym e)
            (v.counted saga) in
        ground (
          arith,
          current_version-append saga rs next,
          versions-append saga rs next,
          length-append_one (versions saga rs) next.version,
          v.counted saga,
        )
    | inr other ↦
        ground
          (arith, current_version-append saga rs next, versions-append saga rs next, v.counted saga)
  ]

  next_once : (key : String) → is_empty key ≡ false → times_used key (rs ++ next ∷ []) ≤ 1
  unfolding next
  next_once key named = elim (Bool-cases (str_eq q.idempotency_key key)) [
    | inl mine ↦
        let e = (eq_iff q.idempotency_key key).0 mine in
        let none_yet : by_key key rs ≡ none = subst (λ (k : String). by_key k rs ≡ none) e fresh in
        let unused = times_used-find_key key rs (rw named at none_yet) in
        ground (arith, times_used-append key rs next)
    | inr other ↦ ground (arith, times_used-append key rs next, v.once key named)
  ]

  next-IsNumbered : IsNumbered (rs ++ next ∷ [])
  next-IsNumbered = record { numbered = next_numbered; counted = next_counted; once = next_once }

-- What a file must be for its lines to be numbered.
IsSound : JournalFile → Type 0
IsSound JournalFile.unreadable = Unit
IsSound (JournalFile.readable rs) = IsNumbered rs
IsSound (JournalFile.unended rs) = IsNumbered rs

lines-IsSound : (ended : Bool) (rs : List Receipt) → IsNumbered rs → IsSound (lines ended rs)
unfolding IsSound
lines-IsSound true rs v = v
lines-IsSound false rs v = v

with_line-IsSound :
    (r : Receipt) (rs : List Receipt) (ended ends : Bool)
    → IsNumbered (rs ++ r ∷ [])
    → IsSound (with_line r rs ended ends)
unfolding IsSound
with_line-IsSound r rs ended ends v = elim (Bool-cases (ended && is_line r)) [
  | inl whole ↦ rw whole (lines-IsSound ends (rs ++ r ∷ []) v)
  | inr split ↦ rw split tt
]

write_line-IsSound :
    (r : Receipt) (rs : List Receipt) (ended : Bool) (d : Disk)
    → IsNumbered rs
    → IsNumbered (rs ++ r ∷ [])
    → IsSound (write_line r rs ended d).1.file
unfolding IsSound
write_line-IsSound r rs ended Disk.works v u = with_line-IsSound r rs ended true u
write_line-IsSound r rs ended Disk.refuses v u = lines-IsSound ended rs v
write_line-IsSound r rs ended Disk.cuts v u = tt
write_line-IsSound r rs ended Disk.cuts_newline v u = with_line-IsSound r rs ended false u
write_line-IsSound r rs ended Disk.unsynced v u = with_line-IsSound r rs ended true u

append_once-IsSound :
    (q : AppendCall) (rs : List Receipt) (ended : Bool) (d : Disk)
    → IsNumbered rs
    → IsSound (append_once q rs ended d (by_key q.idempotency_key rs)).1.file
unfolding next
append_once-IsSound q rs ended d v = elim (Option-cases (by_key q.idempotency_key rs)) [
  | inr (r, known) ↦ rw known (lines-IsSound ended rs v)
  | inl fresh ↦ elim (Bool-cases (is_stale q.expected_version (current_version q.saga_id rs))) [
    | inl stale ↦ rw (fresh, stale) (lines-IsSound ended rs v)
    | inr current ↦
        rw (fresh, current)
          (write_line-IsSound (new_receipt q (current_version q.saga_id rs)) rs ended d v
            (next-IsNumbered rs q v fresh))
  ]
]

append-IsSound : (q : AppendCall) (j : Journal) → IsSound j.file → IsSound (append q j).1.file
unfolding append IsSound
append-IsSound q j v = elim (Bool-cases (is_empty (strip q.saga_id))) [
  | inl unnamed ↦ rw unnamed v
  | inr named ↦ rw named (by_file j.file v)
]
  where
    by_file : (f : JournalFile) → IsSound f → IsSound (append_to q j.disk f).1.file
    by_file JournalFile.unreadable u = tt
    by_file (JournalFile.readable rs) u = append_once-IsSound q rs true j.disk u
    by_file (JournalFile.unended rs) u = append_once-IsSound q rs false j.disk u

append_all-IsSound :
    (calls : List (AppendCall × Disk)) (j : Journal)
    → IsSound j.file
    → IsSound (append_all calls j).file
append_all-IsSound [] j v = v
append_all-IsSound ((q, d) ∷ calls) j v =
    append_all-IsSound calls _ (append-IsSound q (record j { disk = d }) v)

sound_lines : (f : JournalFile) (rs : List Receipt) → read f ≡ ok rs → IsSound f → IsNumbered rs
unfolding IsSound
sound_lines JournalFile.unreadable rs e v = absurd (ground arith)
sound_lines (JournalFile.readable xs) rs e v = subst IsNumbered (ok-injective e) v
sound_lines (JournalFile.unended xs) rs e v = subst IsNumbered (ok-injective e) v

no_receipts-IsNumbered : IsNumbered []
unfolding current_version
no_receipts-IsNumbered = record {
  numbered = λ saga. refl;
  counted = λ saga. refl;
  once = λ key named. omega arith;
}

-- Whatever calls are made on a new journal, by any processes and with any failures of the disk, as long as
-- its file can be read the receipts of each saga have the versions 1, 2, 3 and so on in the order of the
-- file, and no two receipts share a key that is not empty.
pub append_all_numbered :
    (calls : List (AppendCall × Disk)) (rs : List Receipt) (saga key : String)
    → read (append_all calls no_receipts).file ≡ ok rs
    → is_empty key ≡ false
    → (versions saga rs ≡ count_up 1 (length (versions saga rs))) × (times_used key rs ≤ 1)
unfolding IsSound
append_all_numbered calls rs saga key e named =
    let v =
      sound_lines (append_all calls no_receipts).file rs e
        (append_all-IsSound calls no_receipts no_receipts-IsNumbered) in
    (v.numbered saga, v.once key named)
