-- ===== src/Collector/ConnLog.antt =====
-- `connLogConn` of collector/main.go: each `Read` of a connection logs what is left of the first `maxDump` bytes.
use mathlib.Core.List.{append-nil, append_assoc}
use cisco_netconf_mac_db.Common.{
  ℕ, zero, suc, ◌+◌, ◌-◌, ◌≤◌, ltb, ◌≡◌, refl, sym, ap, ◌∙◌, true, Bool-cases, inl, inr, List, [],
  ◌∷◌, ◌++◌, take, length, arith, if◌then◌else◌,
}

abbrev pub max_dump : ℕ
max_dump = 2048

-- A line of the log: from which byte to which, and the bytes.
pub record Line : Type 0 where
  pub start : ℕ
  pub end : ℕ
  pub bytes : List ℕ

abbrev pub end_of : ℕ → ℕ → ℕ → ℕ
end_of max total n = if ltb max (total + n) then max else total + n

-- The line of one read, and the new total.
unfoldable pub log_read : ℕ → ℕ → List ℕ → List Line × ℕ
log_read max total b =
    let n = length b in
    if ltb 0 n
    then (
      if ltb total max
          then record {
            start = total;
            end = end_of max total n;
            bytes = take (end_of max total n - total) b;
          }
            ∷ []
          else [],
      total + n,
    )
    else ([], total)

-- The lines of all reads of a connection.
unfoldable pub log_reads : ℕ → ℕ → List (List ℕ) → List Line
log_reads max total [] = []
log_reads max total (b ∷ bs) = let r = log_read max total b in r.0 ++ log_reads max r.1 bs

abbrev pub logged : List Line → List ℕ
logged [] = []
logged (l ∷ ls) = l.bytes ++ logged ls

abbrev pub received : List (List ℕ) → List ℕ
received [] = []
received (b ∷ bs) = b ++ received bs

take-nil : (k : ℕ) → take {A = ℕ} k [] ≡ []
take-nil zero = refl
take-nil (suc k) = refl

take_short : (k : ℕ) (b : List ℕ) → length b ≤ k → take k b ≡ b
take_short k [] h = take-nil k
take_short zero (x ∷ b) h = absurd (omega arith)
take_short (suc k) (x ∷ b) h = ap (λ xs. x ∷ xs) (take_short k b (omega arith))

take-split : (k : ℕ) (b rest : List ℕ) → take k (b ++ rest) ≡ take k b ++ take (k - length b) rest
take-split k [] rest =
    let same : k ≡ k - 0 = omega arith in
    ap (λ n. take n rest) same ∙ ap (λ l. l ++ take (k - 0) rest) (sym (take-nil k))
take-split zero (x ∷ b) rest =
    let same : 0 ≡ 0 - suc (length b) = omega arith in ap (λ n. take n rest) same
take-split (suc k) (x ∷ b) rest =
    let same : k - length b ≡ suc k - suc (length b) = omega arith in
    ap (λ l. x ∷ l) (take-split k b rest ∙ ap (λ n. take k b ++ take n rest) same)

logged-append : (ls ms : List Line) → logged (ls ++ ms) ≡ logged ls ++ logged ms
logged-append [] ms = refl
logged-append (l ∷ ls) ms =
    ap (λ x. l.bytes ++ x) (logged-append ls ms)
    ∙ sym (append_assoc l.bytes (logged ls) (logged ms))

some_bytes : (b : List ℕ) → ltb 0 (suc (length b)) ≡ true
some_bytes b = ground arith

total-log_read : (max total : ℕ) (b : List ℕ) → (log_read max total b).1 ≡ total + length b
unfolding log_read
total-log_read max total [] = omega arith
total-log_read max total (x ∷ b) = rw (some_bytes b) refl

-- The bytes of a line: as many as there are, up to the limit.
dumped :
    (max total : ℕ) (b : List ℕ)
    → total ≤ max
    → take (end_of max total (length b) - total) b ≡ take (max - total) b
dumped max total b h = elim (Bool-cases (ltb max (total + length b))) [
  | inl t ↦ rw t refl
  | inr f ↦
      let all : length b ≤ max - total = ground arith in
      let same : total + length b - total ≡ length b = omega arith in
      rw f (
        ap (λ n. take n b) same
        ∙ take_short (length b) b (omega arith)
        ∙ sym (take_short (max - total) b all))
]

bytes-log_read :
    (max total : ℕ) (b : List ℕ) → logged (log_read max total b).0 ≡ take (max - total) b
unfolding log_read
bytes-log_read max total [] = sym (take-nil (max - total))
bytes-log_read max total (x ∷ b) = elim (Bool-cases (ltb total max)) [
  | inl t ↦ rw (some_bytes b, t) (append-nil _ ∙ dumped max total (x ∷ b) (ground arith))
  | inr f ↦
      let none_left : 0 ≡ max - total = ground arith in
      rw (some_bytes b, f) (ap (λ n. take n (x ∷ b)) none_left)
]

logged-log_reads :
    (max total : ℕ) (bs : List (List ℕ))
    → logged (log_reads max total bs) ≡ take (max - total) (received bs)
unfolding log_reads
logged-log_reads max total [] = sym (take-nil (max - total))
logged-log_reads max total (b ∷ bs) =
    let r = log_read max total b in
    let left : max - (total + length b) ≡ max - total - length b = omega arith in
    logged-append r.0 (log_reads max r.1 bs)
    ∙ ap (λ l. l ++ logged (log_reads max r.1 bs)) (bytes-log_read max total b)
    ∙ ap (λ l. take (max - total) b ++ l)
        (logged-log_reads max r.1 bs
          ∙ ap (λ t. take (max - t) (received bs)) (total-log_read max total b)
          ∙ ap (λ n. take n (received bs)) left)
    ∙ sym (take-split (max - total) b (received bs))

-- However the bytes of a connection are cut into reads, the lines of the log have the first 2048 of them, in order,
-- and no more.
pub max_dump_logged :
    (bs : List (List ℕ)) → logged (log_reads max_dump 0 bs) ≡ take max_dump (received bs)
max_dump_logged bs = logged-log_reads max_dump 0 bs
