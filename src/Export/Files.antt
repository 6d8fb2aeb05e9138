-- ===== src/Export/Files.antt =====
-- What the files of the nodes hold.
use dst_libp2p_test_node.Prelude.{
  ℕ, ◌==◌, ◌≤◌, ◌≡◌, ◌≢◌, refl, ap, sym, ◌∙◌, Option, none, some, false, List, [], ◌∷◌, ◌++◌, drop,
  arith, All, append_assoc, append-nil, if◌then◌else◌, inl, inr, Bool-cases,
}
use dst_libp2p_test_node.Text.{Text, codes, text_eq, text_eq_refl, text_eq_sound}
use dst_libp2p_test_node.Text.Split.{split, split-append, Lacks}
use dst_libp2p_test_node.Text.Decimal.{
  IsDigit, display, display-All, parse_unsigned, parse-display, max_u64,
}
use dst_libp2p_test_node.Outcome.{ok, unwrap_or}
use dst_libp2p_test_node.ByteOrder.{Bytes}
use dst_libp2p_test_node.Export.{
  metrics_page, Files, append, StoreTurn, encode_failed, open_failed, opened, filename,
  snapshot_line, store_turn, store_metrics,
}

digits_lack_dot : (b : ℕ) (s : List ℕ) → b ≡ b'.' → All IsDigit s → Lacks b s
digits_lack_dot b [] e h = tt
digits_lack_dot b (c ∷ s) e (hc, hs) = (omega arith, digits_lack_dot b s e hs)

-- The number in a file's name.
first_number : List Text → Option ℕ
first_number [] = none
first_number (s ∷ parts) = parse_unsigned max_u64 s

id_of : Text → Option ℕ
id_of name = first_number (split b'.' (drop 12 name))

id_of-filename : (i : ℕ) → i ≤ max_u64 → id_of (filename i) ≡ some i
unfolding id_of first_number
id_of-filename i le =
    let numeral = digits_lack_dot b'.' (display i) refl (display-All i) in
    ap first_number (split-append b'.' (display i) (codes "txt") numeral)
    ∙ parse-display max_u64 i le

filename-injective : (i j : ℕ) → i ≤ max_u64 → j ≤ max_u64 → filename i ≡ filename j → i ≡ j
filename-injective i j hi hj same =
    let read : some i ≡ some j = sym (id_of-filename i hi) ∙ ap id_of same ∙ id_of-filename j hj in
    cc

other_name :
    (i j : ℕ) → i ≤ max_u64 → j ≤ max_u64 → j ≢ i → text_eq (filename j) (filename i) ≡ false
other_name i j hi hj apart = elim (Bool-cases (text_eq (filename j) (filename i))) [
  | inl same ↦
      absurd (apart (filename-injective j i hj hi (text_eq_sound (filename j) (filename i) same)))
  | inr differ ↦ differ
]

append_self :
    (name : Text) (bytes : Bytes) (files : Files)
    → append name bytes files name ≡ some (unwrap_or (files name) [] ++ bytes)
unfolding append
append_self name bytes files = rw (text_eq_refl name) refl

append-kept :
    (name k : Text) (bytes held : Bytes) (files : Files)
    → files k ≡ some held
    → (rest : Bytes) × (append name bytes files k ≡ some (held ++ rest))
unfolding append
append-kept name k bytes held files e = elim (Bool-cases (text_eq name k)) [
  | inl same ↦ (bytes, rw (same, e) refl)
  | inr differ ↦ ([], rw (differ, e, append-nil held) refl)
]

append-other :
    (name k : Text) (bytes : Bytes) (files : Files)
    → text_eq name k ≡ false
    → append name bytes files k ≡ files k
unfolding append
append-other name k bytes files differ = rw differ refl

append-local :
    (name k : Text) (bytes : Bytes) (files files' : Files)
    → files k ≡ files' k
    → append name bytes files k ≡ append name bytes files' k
unfolding append
append-local name k bytes files files' same = rw same refl

-- The rounds of one node.
abbrev pub only : ℕ → List (ℕ × StoreTurn) → List (ℕ × StoreTurn)
only i [] = []
only i ((j, t) ∷ ts) = let rest = only i ts in if j == i then (j, t) ∷ rest else rest

module _ (as_bytes : Text → Bytes) where
  store_turn-other :
      (j : ℕ) (k : Text) (t : StoreTurn) (files : Files)
      → text_eq (filename j) k ≡ false
      → store_turn as_bytes j t files k ≡ files k
  unfolding store_turn
  store_turn-other j k (encode_failed e) files differ = refl
  store_turn-other j k (open_failed e) files differ = refl
  store_turn-other j k (opened buffer now line page) files differ =
      append-other (filename j) k _ _ differ
      ∙ append-other (filename j) k _ _ differ
      ∙ append-other (filename j) k _ _ differ

  store_turn-local :
      (j : ℕ) (k : Text) (t : StoreTurn) (files files' : Files)
      → files k ≡ files' k
      → store_turn as_bytes j t files k ≡ store_turn as_bytes j t files' k
  unfolding store_turn
  store_turn-local j k (encode_failed e) files files' same = same
  store_turn-local j k (open_failed e) files files' same = same
  store_turn-local j k (opened buffer now line page) files files' same =
      append-local _ k _ _ _ (append-local _ k _ _ _ (append-local _ k _ _ _ same))

  store_metrics_own :
      (i : ℕ) (ts : List (ℕ × StoreTurn)) (files files' : Files)
      → i ≤ max_u64
      → All (λ t. t.0 ≤ max_u64) ts
      → files (filename i) ≡ files' (filename i)
      → store_metrics as_bytes ts files (filename i)
        ≡ store_metrics as_bytes (only i ts) files' (filename i)
  unfolding store_metrics
  store_metrics_own i [] files files' le bound same = same
  store_metrics_own i ((j, t) ∷ ts) files files' le (hj, bound) same = elim (Bool-cases (j == i)) [
    | inl own ↦
        rw own (
          store_metrics_own i ts _ _ le bound (store_turn-local j (filename i) t files files' same))
    | inr foreign ↦ rw foreign (
        store_metrics_own i ts _ _ le bound (
          store_turn-other j (filename i) t files
            (other_name i j le hj (λ e. absurd (ground arith)))
          ∙ same))
  ]

  -- However the rounds of the nodes' loops mix, the file of a node holds what that node's own rounds
  -- write: no two nodes write to one file. The nodes' numbers fit in 64 bits.
  pub store_metrics-only :
      (i : ℕ) (ts : List (ℕ × StoreTurn)) (files : Files)
      → i ≤ max_u64
      → All (λ t. t.0 ≤ max_u64) ts
      → store_metrics as_bytes ts files (filename i)
        ≡ store_metrics as_bytes (only i ts) files (filename i)
  store_metrics-only i ts files le bound = store_metrics_own i ts files files le bound refl

  store_turn-kept :
      (j : ℕ) (k : Text) (t : StoreTurn) (held : Bytes) (files : Files)
      → files k ≡ some held
      → (rest : Bytes) × (store_turn as_bytes j t files k ≡ some (held ++ rest))
  unfolding store_turn
  store_turn-kept j k (encode_failed e) held files h = ([], rw (append-nil held) h)
  store_turn-kept j k (open_failed e) held files h = ([], rw (append-nil held) h)
  store_turn-kept j k (opened buffer now line page) held files h =
      let (r1, h1) = append-kept (filename j) k [] held files h in
      let (r2, h2) = append-kept (filename j) k _ _ _ h1 in
      let (r3, h3) = append-kept (filename j) k _ _ _ h2 in
      (
        r1 ++ (r2 ++ r3),
        h3 ∙ ap some (append_assoc (held ++ r1) r2 r3 ∙ append_assoc held r1 (r2 ++ r3)),
      )

  store_metrics-kept :
      (k : Text) (ts : List (ℕ × StoreTurn)) (held : Bytes) (files : Files)
      → files k ≡ some held
      → (rest : Bytes) × (store_metrics as_bytes ts files k ≡ some (held ++ rest))
  unfolding store_metrics
  store_metrics-kept k [] held files h = ([], rw (append-nil held) h)
  store_metrics-kept k ((j, t) ∷ ts) held files h =
      let (r1, h1) = store_turn-kept j k t held files h in
      let (r2, h2) = store_metrics-kept k ts (held ++ r1) _ h1 in
      (r1 ++ r2, h2 ∙ ap some (append_assoc held r1 r2))

  store_metrics-append :
      (ts us : List (ℕ × StoreTurn)) (files : Files)
      → store_metrics as_bytes (ts ++ us) files
        ≡ store_metrics as_bytes us (store_metrics as_bytes ts files)
  unfolding store_metrics
  store_metrics-append [] us files = refl
  store_metrics-append ((j, t) ∷ ts) us files = store_metrics-append ts us _

  store_turn_snapshot :
      (i : ℕ) (buffer now : Text) (files : Files)
      → let held = unwrap_or (files (filename i)) [] in
        store_turn as_bytes i (opened buffer now none none) files (filename i)
        ≡ some (held ++ as_bytes (snapshot_line now) ++ as_bytes buffer)
  unfolding store_turn
  store_turn_snapshot i buffer now files =
      let held = unwrap_or (files (filename i)) [] in
      rw
        (
          append_self (filename i),
          append_self (filename i),
          append_self (filename i),
          append-nil held,
          append_assoc held,
        )
        refl

  -- A round in which nothing fails adds the line with its time and the page that a scrape gets then to
  -- the node's file, behind all that was there; and it stays there, whatever rounds follow, of this
  -- node or of others, and whichever of them fail.
  pub store_metrics-snapshot :
      (i : ℕ) (earlier later : List (ℕ × StoreTurn)) (buffer now : Text) (files : Files)
      → let held = unwrap_or (store_metrics as_bytes earlier files (filename i)) [] in
        (rest : Bytes) × (store_metrics as_bytes
            (earlier ++ (i, opened buffer now none none) ∷ later)
            files
            (filename i)
          ≡ some (
              (held ++ as_bytes (snapshot_line now) ++ as_bytes ((metrics_page (ok buffer)).body))
              ++ rest))
  unfolding metrics_page store_metrics
  store_metrics-snapshot i earlier later buffer now files =
      let (rest, kept) =
        store_metrics-kept (filename i) later _ _
          (store_turn_snapshot i buffer now (store_metrics as_bytes earlier files)) in
      (
        rest,
        ap (λ (f : Files). f (filename i))
              (store_metrics-append earlier ((i, opened buffer now none none) ∷ later) files)
            ∙ kept,
      )
