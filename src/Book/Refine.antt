-- ===== src/Book/Refine.antt =====
-- orderbook.hpp, `update_side`: the loops over the array do what the list of levels promises.
use cpp_interview.Prelude.{
  ℕ, zero, suc, ◌+◌, ◌-◌, ◌<◌, ◌≤◌, ◌≡◌, refl, ap, ◌∙◌, sym, some, List, ◌==◌, ltb, arith, get_or,
  set, take, take-take, take-set, get_or-take, length-take, min, subst, length, length-set,
  if◌then◌else◌, Option-cases, Bool-cases, inl, inr, ltb→lt,
}
use cpp_interview.Book.{
  Side, PriceLevel, empty_level, Levels, find_insert_pos, shift_down, shift_up, update_found,
  insert_level, update_side,
}
use cpp_interview.Book.Shift.{remove_at, insert_at, take-shift_down, take-shift_up}
use cpp_interview.Book.Spec.{remove_price, replace_price, insert_price, upsert}
use cpp_interview.Book.Search.{
  position, find_level-position, find_insert_pos-insert_position, position-lt, remove_at-position,
  set-position, has_price-none, insert_at-insert_position, insert_position-le, take-insert_at,
  take-insert_at_le,
}

-- The levels in use.
abbrev pub contents : Levels → List PriceLevel
contents s = take s.count s.levels

-- The array has `depth` entries, of which `count` are in use.
pub record Fits (depth : ℕ) (s : Levels) : Type 0 where
  pub size : length s.levels ≡ depth
  pub used : s.count ≤ depth

length-shift_down : (n j : ℕ) (xs : List PriceLevel) → length (shift_down xs n j) ≡ length xs
unfolding shift_down
length-shift_down zero j xs = refl
length-shift_down (suc n) j xs =
    length-shift_down n (j + 1) (set xs j (get_or xs (j + 1) empty_level)) ∙ length-set xs j _

length-shift_up : (n j : ℕ) (xs : List PriceLevel) → length (shift_up xs n j) ≡ length xs
unfolding shift_up
length-shift_up zero j xs = refl
length-shift_up (suc n) j xs =
    length-shift_up n j (set xs (j + suc n) (get_or xs (j + n) empty_level))
    ∙ length-set xs (j + suc n) _

-- An update of the array at a level that has the price.
update_found-contents :
    (depth i : ℕ) (s : Levels) (v : PriceLevel)
    → Fits depth s
    → position v.price (contents s) ≡ some i
    → (contents (update_found s i v.qty v.order_count)
        ≡ (if v.qty == 0 then remove_price v.price (contents s) else replace_price v (contents s)))
      × Fits depth (update_found s i v.qty v.order_count)
unfolding update_found
update_found-contents depth i s v fits at_i =
    let short = position-lt v.price i (contents s) at_i in
    let small : i < s.count = omega (arith, short, length-take s.count s.levels) in
    let full : suc (s.count - 1) ≡ s.count = omega arith in
    let down =
      take-shift_down (s.count - 1) (s.count - 1 - i) i s.levels (omega arith)
        (omega (arith, fits.size, fits.used)) in
    ground (
      arith,
      full,
      subst
          (λ c.
            take (s.count - 1) (shift_down s.levels (s.count - 1 - i) i)
            ≡ remove_at i (take c s.levels))
          full down,
      remove_at-position v.price i (contents s) at_i,
      set-position v i (contents s) at_i,
      take-set s.count i
          (record (get_or s.levels i empty_level) { qty = v.qty; order_count = v.order_count })
          s.levels,
      get_or-take s.count i empty_level s.levels small,
      length-shift_down (s.count - 1 - i) i s.levels,
      length-set s.levels i
          (record (get_or s.levels i empty_level) { qty = v.qty; order_count = v.order_count }),
    )

-- An update of the array for a price that it has not.
insert_level-contents :
    (depth : ℕ) (side : Side) (s : Levels) (v : PriceLevel)
    → Fits depth s
    → (contents (insert_level depth side s v.price v.qty v.order_count)
        ≡ take depth (insert_price side v (contents s)))
      × Fits depth (insert_level depth side s v.price v.qty v.order_count)
unfolding insert_level
insert_level-contents depth side s v fits =
    let C = contents s in
    let pos = find_insert_pos side s.levels s.count 0 v.price in
    let m = min (s.count + 1) depth - 1 in
    let at_pos =
      find_insert_pos-insert_position side s.count v.price s.levels
        (omega (arith, fits.used, fits.size)) in
    let low : pos ≤ s.count =
      omega (arith, at_pos, insert_position-le side v.price C, length-take s.count s.levels) in
    let same : insert_at pos v C ≡ insert_price side v C =
      rw at_pos (insert_at-insert_position side v C) in
    elim (Bool-cases (ltb pos depth)) [
      | inl room ↦
          let here : pos < depth = ltb→lt pos depth room in
          let up =
            take-shift_up m (m - pos) pos v s.levels (omega (arith, fits.used))
              (omega (arith, fits.used, fits.size)) in
          let cut = take-take (depth - 1) s.count m s.levels (omega (arith, fits.used)) in
          let right = take-insert_at (depth - 1) pos v C (omega arith) in
          let count : (if ltb s.count depth then s.count + 1 else s.count) ≡ suc m =
            ground (arith, fits.used) in
          let all : suc (depth - 1) ≡ depth = omega arith in
          rw (room, count)
            (
              (up
                  ∙ ap (insert_at pos v) (sym cut)
                  ∙ sym right
                  ∙ ap (λ d. take d (insert_at pos v C)) all
                  ∙ ap (take depth) same),
              record {
                size =
                    length-set (shift_up s.levels (m - pos) pos) pos v
                    ∙ length-shift_up (m - pos) pos s.levels
                    ∙ fits.size;
                used = omega arith;
              },
            )
      | inr full ↦
          let last : depth ≤ pos = ground arith in
          let stay =
            take-insert_at_le depth pos v C last
              (omega (arith, length-take s.count s.levels, fits.size)) in
          let whole = take-take depth s.count s.count s.levels (omega (arith, fits.used)) in
          rw full (sym whole ∙ sym stay ∙ ap (take depth) same, fits)
    ]

-- On an array that fits, `update_side` with its loops does the update of the list of levels, and the
-- array still fits: no index runs out of its bounds.
pub update_side-upsert :
    (depth : ℕ) (side : Side) (s : Levels) (v : PriceLevel)
    → Fits depth s
    → (contents (update_side depth side s v.price v.qty v.order_count)
        ≡ upsert depth side v (contents s))
      × Fits depth (update_side depth side s v.price v.qty v.order_count)
unfolding update_side upsert
update_side-upsert depth side s v fits =
    let found =
      find_level-position s.count v.price s.levels (omega (arith, fits.used, fits.size)) in
    elim (Option-cases (position v.price (contents s))) [
      | inl e ↦ ground (
        arith,
        found,
        e,
        has_price-none v.price (contents s) e,
        insert_level-contents depth side s v fits,
      )
      | inr (i, e) ↦ ground (
        arith,
        found,
        e,
        remove_at-position v.price i (contents s) e,
        update_found-contents depth i s v fits e,
      )
    ]
