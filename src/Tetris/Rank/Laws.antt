-- ===== src/Tetris/Rank/Laws.antt =====
-- The ranking stays in order.
use sogang_university.Shared.{ℕ, zero, suc, ◌≤◌, ◌<◌, ◌≡◌, refl, ap, arith, inl, inr}
use sogang_university.Shared.{true, false, Bool-cases, if◌then◌else◌, ◌||◌}
use sogang_university.Shared.{List, [], ◌∷◌, ◌++◌, length, All, take, drop}
use sogang_university.Shared.Int.{ℤ, pos, leb_ℤ, ltb_ℤ, ◌≤ℤ◌, ≤ℤ_trans, leb_ℤ→≤ℤ, leb_ℤ→≥ℤ}
use sogang_university.Tetris.Rank.{Entry, Ranking}
use sogang_university.Tetris.Rank.{insert_after, insert_entry, new_rank, unlink, delete_rank}

-- No entry has a higher score than one before it.
abbrev pub IsRanked : List Entry → Type 0
IsRanked [] = Unit
IsRanked (e ∷ es) = All (λ (d : Entry). d.score ≤ℤ e.score) es × IsRanked es

-- The list is ranked and `num` counts it.
pub record IsRanking (r : Ranking) : Type 0 where
  pub ranked : IsRanked r.entries
  pub counted : r.num ≡ length r.entries

-- The place of a new entry: behind those that score as much or more.
abbrev pub put : Entry → List Entry → List Entry
put cur [] = cur ∷ []
put cur (e ∷ es) = if leb_ℤ cur.score e.score then e ∷ put cur es else cur ∷ e ∷ es

insert_after-put : (cur : Entry) (es : List Entry) → insert_after cur es ≡ put cur es
unfolding insert_after
insert_after-put cur [] = refl
insert_after-put cur (e ∷ []) = ground arith
insert_after-put cur (e ∷ d ∷ es) = ground (arith, insert_after-put cur (d ∷ es))

insert_entry-put : (cur : Entry) (es : List Entry) → insert_entry cur es ≡ put cur es
unfolding insert_entry
insert_entry-put cur [] = refl
insert_entry-put cur (e ∷ es) = ground (arith, insert_after-put cur (e ∷ es))

length-put : (cur : Entry) (es : List Entry) → length (put cur es) ≡ suc (length es)
length-put cur [] = refl
length-put cur (e ∷ es) = ground (arith, length-put cur es)

All-put :
    (P : Entry → Type 0) (cur : Entry) (es : List Entry) → P cur → All P es → All P (put cur es)
All-put P cur [] h a = (h, tt)
All-put P cur (e ∷ es) h a = elim (Bool-cases (leb_ℤ cur.score e.score)) [
  | inl t ↦ rw t (a.0, All-put P cur es h a.1)
  | inr t ↦ rw t (h, a)
]

All-below :
    (s t : ℤ) (es : List Entry)
    → s ≤ℤ t
    → All (λ (d : Entry). d.score ≤ℤ s) es
    → All (λ (d : Entry). d.score ≤ℤ t) es
All-below s t [] h a = tt
All-below s t (e ∷ es) h a = (≤ℤ_trans e.score s t a.0 h, All-below s t es h a.1)

put-IsRanked : (cur : Entry) (es : List Entry) → IsRanked es → IsRanked (put cur es)
put-IsRanked cur [] h = (tt, tt)
put-IsRanked cur (e ∷ es) h = elim (Bool-cases (leb_ℤ cur.score e.score)) [
  | inl t ↦ rw t (
    All-put (λ (d : Entry). d.score ≤ℤ e.score) cur es (leb_ℤ→≤ℤ cur.score e.score t) h.0,
    put-IsRanked cur es h.1,
  )
  | inr t ↦
      let above = leb_ℤ→≥ℤ cur.score e.score t in
      rw t ((above, All-below e.score cur.score es above h.0), h)
]

-- `newRank` puts the new entry behind all that score as much or more and before all that score less,
-- keeps the others in their order, and keeps the ranking in order and its count right.
pub new_rank-IsRanking :
    (name : List ℕ) (score : ℤ) (r : Ranking)
    → IsRanking r
    → IsRanking (new_rank name score r)
      × ((new_rank name score r).entries ≡ put (record { name = name; score = score }) r.entries)
unfolding new_rank
new_rank-IsRanking name score r h =
    let cur : Entry = record { name = name; score = score } in
    let same = insert_entry-put cur r.entries in
    (
      record {
        ranked = rw same (put-IsRanked cur r.entries h.ranked);
        counted = rw same (omega (arith, length-put cur r.entries, h.counted));
      },
      same,
    )

unlink-take-drop : (n : ℕ) (es : List Entry) → unlink (suc n) es ≡ take n es ++ drop (suc n) es
unfolding unlink
unlink-take-drop zero [] = refl
unlink-take-drop (suc n) [] = refl
unlink-take-drop zero (e ∷ es) = refl
unlink-take-drop (suc n) (e ∷ es) = ap (λ l. e ∷ l) (unlink-take-drop n es)

All-unlink : (P : Entry → Type 0) (n : ℕ) (es : List Entry) → All P es → All P (unlink n es)
unfolding unlink
All-unlink P n [] h = tt
All-unlink P zero (e ∷ es) h = h
All-unlink P (suc zero) (e ∷ es) h = h.1
All-unlink P (suc (suc n)) (e ∷ es) h = (h.0, All-unlink P (suc n) es h.1)

unlink-IsRanked : (n : ℕ) (es : List Entry) → IsRanked es → IsRanked (unlink n es)
unfolding unlink
unlink-IsRanked n [] h = tt
unlink-IsRanked zero (e ∷ es) h = h
unlink-IsRanked (suc zero) (e ∷ es) h = h.1
unlink-IsRanked (suc (suc n)) (e ∷ es) h =
    (All-unlink (λ (d : Entry). d.score ≤ℤ e.score) (suc n) es h.0, unlink-IsRanked (suc n) es h.1)

length-unlink :
    (n : ℕ) (es : List Entry) → n < length es → suc (length (unlink (suc n) es)) ≡ length es
unfolding unlink
length-unlink n [] h = absurd (omega arith)
length-unlink zero (e ∷ es) h = refl
length-unlink (suc n) (e ∷ es) h = ap suc (length-unlink n es (omega arith))

-- Deleting the rank `n + 1` takes out that entry and no other, keeps the ranking in order and its
-- count right, and is refused, with nothing changed, exactly if there are not that many.
pub delete_rank-IsRanking :
    (n : ℕ) (r : Ranking)
    → IsRanking r
    → let (done, r') = delete_rank (pos (suc n)) r in
      IsRanking r'
      × (n < length r.entries
          → (done ≡ true) × (r'.entries ≡ take n r.entries ++ drop (suc n) r.entries))
      × (length r.entries ≤ n → (done ≡ false) × (r' ≡ r))
unfolding delete_rank
delete_rank-IsRanking n r h =
    elim (Bool-cases (ltb_ℤ (pos (suc n)) (pos 1) || ltb_ℤ (pos r.num) (pos (suc n)))) [
      | inl over ↦ rw over (h, λ lt. absurd (ground (arith, h.counted)), λ le. (refl, refl))
      | inr within ↦
          let inside : n < length r.entries = ground (arith, h.counted) in
          rw within (
            record {
              ranked = unlink-IsRanked (suc n) r.entries h.ranked;
              counted = omega (arith, length-unlink n r.entries inside, h.counted);
            },
            λ lt. (refl, unlink-take-drop n r.entries),
            λ le. absurd (omega (arith, inside)),
          )
    ]
