-- ===== src/Nodes/Assign/Coverage.antt =====
-- What `redistribute` of lmd/nodes.go gives to the nodes together.
use mathlib.Core.List.{flatten}
use lmd.Prelude.{
  ℕ, zero, suc, ◌+◌, ◌*◌, ◌/◌, ◌%◌, ◌≤◌, ◌<◌, ◌≡◌, refl, Bool, true, false, List, [], ◌∷◌, Bytes,
  ok, err, length, take, drop, arith, ◌==◌, map, drop-drop, take-add, drop-get_elem?, get_elem?-lt,
  get_elem?-le, length-take, length-drop, if◌then◌else◌,
}
use native.Mathlib.Decide.{dec_le}
use lmd.Runtime.{index_out_of_range}
use lmd.Nodes.Assign.{one_each, spread, read_range, deal}

abbrev pub total : List ℕ → ℕ
total [] = 0
total (n ∷ ns) = n + total ns

abbrev pub count_online : List Bool → ℕ
count_online [] = 0
count_online (true ∷ rest) = suc (count_online rest)
count_online (false ∷ rest) = count_online rest

read_range-ok :
    (number start : ℕ) (backends : List Bytes)
    → start + number ≤ length backends
    → read_range number start backends ≡ ok (take number (drop start backends))
unfolding read_range
read_range-ok zero start backends h = refl
read_range-ok (suc number) start backends h =
    let (b, e) = get_elem?-lt start backends (omega arith) in
    ground (arith, e, drop-get_elem? start backends b e, read_range-ok number (start + 1) backends)

read_range-panics :
    (number start : ℕ) (backends : List Bytes)
    → length backends < start + number
    → 0 < number
    → read_range number start backends ≡ err index_out_of_range
unfolding read_range
read_range-panics zero start backends h k = absurd (omega arith)
read_range-panics (suc zero) start backends h k = ground (arith, get_elem?-le start backends)
read_range-panics (suc (suc number)) start backends h k =
    ground (arith, read_range-panics (suc number) (start + 1) backends)

pub total-one_each : (online : List Bool) → total (one_each online) ≡ count_online online
unfolding one_each
total-one_each [] = refl
total-one_each (true ∷ rest) = omega (arith, total-one_each rest)
total-one_each (false ∷ rest) = omega (arith, total-one_each rest)

total-spread :
    (backends available : ℕ) (online : List Bool)
    → total (spread backends available false online) ≡ backends / available * count_online online
unfolding spread
total-spread backends available [] = ground arith
total-spread backends available (true ∷ rest) = grind (arith, total-spread backends available rest)
total-spread backends available (false ∷ rest) = grind (arith, total-spread backends available rest)

pub total-spread_first :
    (backends available : ℕ) (online : List Bool)
    → 0 < count_online online
    → total (spread backends available true online)
      ≡ backends / available * count_online online + (if backends % available == 0 then 0 else 1)
unfolding spread
total-spread_first backends available [] h = absurd (omega arith)
total-spread_first backends available (true ∷ rest) h =
    grind (arith, total-spread backends available rest)
total-spread_first backends available (false ∷ rest) h =
    grind (arith, total-spread_first backends available rest)

pub deal-flatten :
    (backends : List Bytes) (distributed : ℕ) (numbers : List ℕ)
    → distributed + total numbers ≤ length backends
    → (lists : List (List Bytes)) × (deal backends distributed numbers ≡ ok lists)
      × (flatten lists ≡ take (total numbers) (drop distributed backends))
      × (map length lists ≡ numbers)
unfolding deal flatten
deal-flatten backends distributed [] h = ([], refl, refl, refl)
deal-flatten backends distributed (number ∷ rest) h =
    let (lists, dealt, flat, sizes) =
      deal-flatten backends (distributed + number) rest (omega arith) in
    let own = take number (drop distributed backends) in
    (
      own ∷ lists,
      ground (arith, read_range-ok number distributed backends, dealt),
      cc (
        flat,
        take-add number (total rest) (drop distributed backends),
        drop-drop distributed number backends,
      ),
      cc (
        sizes,
        let size : length own ≡ number = omega (
          arith,
          length-take number (drop distributed backends),
          length-drop distributed backends,
        ) in
            size,
      ),
    )

pub deal-panics :
    (backends : List Bytes) (distributed : ℕ) (numbers : List ℕ)
    → distributed ≤ length backends
    → length backends < distributed + total numbers
    → deal backends distributed numbers ≡ err index_out_of_range
unfolding deal
deal-panics backends distributed [] h k = absurd (omega arith)
deal-panics backends distributed (number ∷ rest) h k =
    elim (dec_le (distributed + number) (length backends)) [
      | yes fits ↦ ground (
        arith,
        read_range-ok number distributed backends,
        deal-panics backends (distributed + number) rest,
      )
      | no over ↦ ground (arith, read_range-panics number distributed backends)
    ]
