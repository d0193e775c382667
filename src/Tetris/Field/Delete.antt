-- ===== src/Tetris/Field/Delete.antt =====
-- What `DeleteLine` does, in terms of whole rows.
use sogang_university.Shared.{ℕ, zero, suc, ◌+◌, ◌*◌, ◌≤◌, ◌<◌, ◌≡◌, refl, sym, ◌∙◌, ap, arith}
use sogang_university.Shared.{Bool, true, false, not, ◌&&◌, ◌==◌, if◌then◌else◌, Bool-cases}
use sogang_university.Shared.{inl, inr, [], ◌∷◌, ◌++◌, append_assoc}
use sogang_university.Shared.{length, get_or, set, replicate, length-append, length-set}
use sogang_university.Shared.{length-replicate, All, All-append, All-replicate, All-get_or}
use sogang_university.Shared.{get_or-append_left, get_or-append_length, replicate_shift}
use sogang_university.Tetris.Blocks.{width, height}
use sogang_university.Tetris.Field.{
  Row, Field, row_flag, zeros, shift_down, delete_loop, delete_line,
}

-- A field of `HEIGHT` rows of `WIDTH` cells.
pub record IsField (f : Field) : Type 0 where
  pub rows : length f ≡ height
  pub columns : All (λ (r : Row). length r ≡ width) f

abbrev pub is_full : Row → Bool
is_full [] = true
is_full (c ∷ r) = not (c == 0) && is_full r

abbrev pub count_full : Field → ℕ
count_full [] = 0
count_full (r ∷ f) = if is_full r then suc (count_full f) else count_full f

-- The rows that stay, in their order.
abbrev pub kept : Field → Field
kept [] = []
kept (r ∷ f) = if is_full r then kept f else r ∷ kept f

row_flag-cons :
    (c : ℕ) (r : Row) (n j flag : ℕ) → row_flag (c ∷ r) n (suc j) flag ≡ row_flag r n j flag
unfolding row_flag
row_flag-cons c r zero j flag = refl
row_flag-cons c r (suc n) j flag =
    let flag' = if get_or r j 0 == 0 then 0 else flag in
    let next : suc j + 1 ≡ suc (j + 1) = omega arith in
    ap (λ k. row_flag (c ∷ r) n k flag') next ∙ row_flag-cons c r n (j + 1) flag'

row_flag-is_full :
    (r : Row) (flag : ℕ) → row_flag r (length r) 0 flag ≡ (if is_full r then flag else 0)
unfolding row_flag
row_flag-is_full [] flag = refl
row_flag-is_full (c ∷ r) flag =
    let flag' = if c == 0 then 0 else flag in
    row_flag-cons c r (length r) 0 flag' ∙ row_flag-is_full r flag' ∙ ground arith

remove : ℕ → Field → Field
remove n [] = []
remove zero (r ∷ f) = f
remove (suc n) (r ∷ f) = r ∷ remove n f

remove-set :
    (n : ℕ) (f : Field)
    → suc n < length f
    → remove n (set f (suc n) (get_or f n [])) ≡ remove (suc n) f
unfolding remove
remove-set n [] h = absurd (omega arith)
remove-set zero (r ∷ []) h = absurd (omega arith)
remove-set zero (r ∷ s ∷ f) h = refl
remove-set (suc n) (r ∷ f) h = ap (λ g. r ∷ g) (remove-set n f (omega arith))

-- Shifting the rows above row `n` down by one and clearing the first takes row `n` out.
shift_down-remove :
    (n : ℕ) (f : Field) → n < length f → set (shift_down n f) 0 zeros ≡ zeros ∷ remove n f
unfolding shift_down remove
shift_down-remove zero [] h = absurd (omega arith)
shift_down-remove zero (r ∷ f) h = refl
shift_down-remove (suc n) f h =
    shift_down-remove n (set f (suc n) (get_or f n []))
      (omega (arith, length-set f (suc n) (get_or f n [])))
    ∙ ap (λ g. zeros ∷ g) (remove-set n f h)

remove-append :
    (pre : Field) (r : Row) (post : Field) → remove (length pre) (pre ++ (r ∷ post)) ≡ pre ++ post
unfolding remove
remove-append [] r post = refl
remove-append (p ∷ pre) r post = ap (λ g. p ∷ g) (remove-append pre r post)

-- The test that `DeleteLine` makes of row `i`.
abbrev flagged : Field → ℕ → Bool
flagged f i = row_flag (get_or f i []) width 0 1 == 1

flagged-is_full :
    (f : Field) (i : ℕ) → length (get_or f i []) ≡ width → flagged f i ≡ is_full (get_or f i [])
flagged-is_full f i h =
    ground (arith, row_flag-is_full (get_or f i []) 1, ap (λ n. row_flag (get_or f i []) n 0 1) h)

delete_loop-next :
    (fuel i : ℕ) (f : Field) (temp : ℕ)
    → i < height
    → length (get_or f i []) ≡ width
    → is_full (get_or f i []) ≡ false
    → delete_loop (suc fuel) i f temp ≡ delete_loop fuel (i + 1) f temp
unfolding delete_loop
delete_loop-next fuel i f temp h w e = ground (arith, flagged-is_full f i w)

delete_loop-again :
    (fuel i : ℕ) (f : Field) (temp : ℕ)
    → i < height
    → length (get_or f i []) ≡ width
    → is_full (get_or f i []) ≡ true
    → delete_loop (suc fuel) i f temp ≡ delete_loop fuel i (set (shift_down i f) 0 zeros) (temp + 1)
unfolding delete_loop
delete_loop-again fuel i f temp h w e = ground (arith, flagged-is_full f i w)

delete_loop-end :
    (fuel i : ℕ) (f : Field) (temp : ℕ) → height ≤ i → delete_loop (suc fuel) i f temp ≡ (f, temp)
unfolding delete_loop
delete_loop-end fuel i f temp h = ground arith

-- The rows already seen hold no full one, and every row has its width.
record Seen (pre post : Field) : Type 0 where
  clear : All (λ (r : Row). is_full r ≡ false) pre
  before : All (λ (r : Row). length r ≡ width) pre
  after : All (λ (r : Row). length r ≡ width) post
  total : length pre + length post ≡ height

abbrev deleted : Field → Field → Field
deleted pre post = replicate (count_full post) zeros ++ (pre ++ kept post)

zeros-clear : is_full zeros ≡ false
zeros-clear = refl

-- A row of the part already seen is not full, whatever follows.
delete_loop-Seen :
    (fuel i : ℕ) (p : Row) (pre post : Field) (temp : ℕ)
    → i ≡ length pre
    → Seen (p ∷ pre) post
    → delete_loop (suc fuel) i ((p ∷ pre) ++ post) temp
      ≡ delete_loop fuel (i + 1) ((p ∷ pre) ++ post) temp
delete_loop-Seen fuel i p pre post temp e s =
    delete_loop-next fuel i ((p ∷ pre) ++ post) temp (omega (arith, s.total))
      (rw at_i (All-get_or (λ (r : Row). length r ≡ width) (p ∷ pre) i [] below s.before))
      (rw at_i (All-get_or (λ (r : Row). is_full r ≡ false) (p ∷ pre) i [] below s.clear))
  where
    below : i < length (p ∷ pre)
    below = omega arith

    at_i : get_or ((p ∷ pre) ++ post) i [] ≡ get_or (p ∷ pre) i []
    at_i = get_or-append_left (p ∷ pre) post i [] below

Seen-other :
    (r : Row) (pre post : Field)
    → is_full r ≡ false
    → Seen pre (r ∷ post)
    → Seen (pre ++ (r ∷ [])) post
Seen-other r pre post other s = record {
  clear = All-append (λ (r : Row). is_full r ≡ false) pre (r ∷ []) s.clear (other, tt);
  before = All-append (λ (r : Row). length r ≡ width) pre (r ∷ []) s.before (s.after.0, tt);
  after = s.after.1;
  total = omega (arith, s.total, length-append pre (r ∷ []));
}

Seen-full : (r : Row) (pre post : Field) → Seen pre (r ∷ post) → Seen (zeros ∷ pre) post
Seen-full r pre post s = record {
  clear = (zeros-clear, s.clear);
  before = (refl, s.before);
  after = s.after.1;
  total = omega (arith, s.total);
}

-- One round at a row that stays.
delete_loop-other :
    (fuel i : ℕ) (r : Row) (pre post : Field) (temp : ℕ)
    → i ≡ length pre
    → is_full r ≡ false
    → Seen pre (r ∷ post)
    → delete_loop (suc fuel) i (pre ++ (r ∷ post)) temp
      ≡ delete_loop fuel (i + 1) ((pre ++ (r ∷ [])) ++ post) temp
delete_loop-other fuel i r pre post temp e other s =
    delete_loop-next fuel i (pre ++ (r ∷ post)) temp (omega (arith, s.total)) (rw at_i s.after.0)
      (rw at_i other)
    ∙ ap (λ f. delete_loop fuel (i + 1) f temp) (sym (append_assoc pre (r ∷ []) post))
  where
    at_i : get_or (pre ++ (r ∷ post)) i [] ≡ r
    at_i = rw e (get_or-append_length pre r post [])

-- Two rounds at a full row: it is taken out, and the row that came down in its place is passed.
delete_loop-full :
    (fuel i : ℕ) (r : Row) (pre post : Field) (temp : ℕ)
    → i ≡ length pre
    → is_full r ≡ true
    → Seen pre (r ∷ post)
    → delete_loop (suc (suc fuel)) i (pre ++ (r ∷ post)) temp
      ≡ delete_loop fuel (i + 1) ((zeros ∷ pre) ++ post) (temp + 1)
delete_loop-full fuel i r pre post temp e full s =
    delete_loop-again (suc fuel) i (pre ++ (r ∷ post)) temp (omega (arith, s.total))
      (rw at_i s.after.0) (rw at_i full)
    ∙ ap (λ f. delete_loop (suc fuel) i f (temp + 1)) taken
    ∙ delete_loop-Seen fuel i zeros pre post (temp + 1) e (Seen-full r pre post s)
  where
    at_i : get_or (pre ++ (r ∷ post)) i [] ≡ r
    at_i = rw e (get_or-append_length pre r post [])

    taken : set (shift_down i (pre ++ (r ∷ post))) 0 zeros ≡ (zeros ∷ pre) ++ post
    taken =
        shift_down-remove i (pre ++ (r ∷ post)) (omega (arith, length-append pre (r ∷ post)))
        ∙ ap (λ f. zeros ∷ f) (rw e (remove-append pre r post))

delete_loop_lem :
    (fuel i : ℕ) (pre post : Field) (temp : ℕ)
    → i ≡ length pre
    → 2 * length post < fuel
    → Seen pre post
    → delete_loop fuel i (pre ++ post) temp ≡ (deleted pre post, temp + count_full post)
delete_loop_lem zero i pre post temp e f s = absurd (omega arith)
delete_loop_lem (suc fuel) i pre [] temp e f s =
    delete_loop-end fuel i (pre ++ []) temp (omega (arith, s.total)) ∙ ground arith
delete_loop_lem (suc zero) i pre (r ∷ post) temp e f s = absurd (omega arith)
delete_loop_lem (suc (suc fuel)) i pre (r ∷ post) temp e f s = elim (Bool-cases (is_full r)) [
  | inl full ↦
      delete_loop-full fuel i r pre post temp e full s
      ∙ delete_loop_lem fuel (i + 1) (zeros ∷ pre) post (temp + 1) (omega arith) (omega arith)
          (Seen-full r pre post s)
      ∙ ground (arith, replicate_shift (count_full post) zeros (pre ++ kept post))
  | inr other ↦
      delete_loop-other (suc fuel) i r pre post temp e other s
      ∙ delete_loop_lem (suc fuel) (i + 1) (pre ++ (r ∷ [])) post temp
          (omega (arith, length-append pre (r ∷ []))) (omega arith) (Seen-other r pre post other s)
      ∙ ground (arith, append_assoc pre (r ∷ []) (kept post))
]

-- `DeleteLine` on a field of the right size takes out exactly the rows without a 0, keeps the others
-- in their order, puts as many empty rows on top, and returns 100 times the square of the number
-- of rows taken out.
pub delete_line_lem :
    (f : Field)
    → IsField f
    → delete_line f ≡ (replicate (count_full f) zeros ++ kept f, count_full f * count_full f * 100)
unfolding delete_line
delete_line_lem f h =
    ap (λ (d : Field × ℕ). (d.0, d.1 * d.1 * 100))
      (delete_loop_lem (2 * height + 1) 0 [] f 0 refl (omega (arith, h.rows))
        (record { clear = tt; before = tt; after = h.columns; total = omega (arith, h.rows) }))
    ∙ ground arith

kept-rows : (f : Field) → length (kept f) + count_full f ≡ length f
kept-rows [] = refl
kept-rows (r ∷ f) = ground (arith, kept-rows f)

kept-columns :
    (f : Field)
    → All (λ (r : Row). length r ≡ width) f
    → All (λ (r : Row). length r ≡ width) (kept f)
kept-columns [] h = tt
kept-columns (r ∷ f) h = elim (Bool-cases (is_full r)) [
  | inl e ↦ rw e (kept-columns f h.1)
  | inr e ↦ rw e (h.0, kept-columns f h.1)
]

kept-clear : (f : Field) → All (λ (r : Row). is_full r ≡ false) (kept f)
kept-clear [] = tt
kept-clear (r ∷ f) = elim (Bool-cases (is_full r)) [
  | inl e ↦ rw e (kept-clear f)
  | inr e ↦ rw e (e, kept-clear f)
]

-- `DeleteLine` keeps the size of the field, and leaves no row without a 0 in it.
pub delete_line-IsField :
    (f : Field)
    → IsField f
    → IsField (delete_line f).0 × All (λ (r : Row). is_full r ≡ false) (delete_line f).0
delete_line-IsField f h = rw (delete_line_lem f h) (
  record {
    rows = omega (
      arith,
      h.rows,
      kept-rows f,
      length-append (replicate (count_full f) zeros) (kept f),
      length-replicate (count_full f) zeros,
    );
    columns =
        All-append (λ (r : Row). length r ≡ width) (replicate (count_full f) zeros) (kept f)
          (All-replicate (λ (r : Row). length r ≡ width) (count_full f) zeros refl)
          (kept-columns f h.columns);
  },
  All-append (λ (r : Row). is_full r ≡ false) (replicate (count_full f) zeros) (kept f)
      (All-replicate (λ (r : Row). is_full r ≡ false) (count_full f) zeros zeros-clear)
      (kept-clear f),
)
