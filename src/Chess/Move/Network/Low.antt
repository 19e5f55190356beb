-- ===== src/Chess/Move/Network/Low.antt =====
-- The moves from ranks 1 to 4 of the table kIdxToMove of src/chess/bitboard.cc.
use fat_fritz.Common.{ℕ, List, [], ◌∷◌}

-- Each entry is a source square and its destinations, in the order of the table.
abbrev pub low_rows : List (ℕ × List ℕ)
low_rows =
    (
      0,
      1 ∷ 2 ∷ 3 ∷ 4 ∷ 5 ∷ 6 ∷ 7 ∷ 8 ∷ 9 ∷ 10 ∷ 16 ∷ 17 ∷ 18 ∷ 24 ∷ 27 ∷ 32 ∷ 36 ∷ 40 ∷ 45 ∷ 48 ∷ 54
          ∷ 56 ∷ 63 ∷ [],
    )
    ∷ (
      1,
      0 ∷ 2 ∷ 3 ∷ 4 ∷ 5 ∷ 6 ∷ 7 ∷ 8 ∷ 9 ∷ 10 ∷ 11 ∷ 16 ∷ 17 ∷ 18 ∷ 19 ∷ 25 ∷ 28 ∷ 33 ∷ 37 ∷ 41 ∷ 46
          ∷ 49 ∷ 55 ∷ 57 ∷ [],
    )
    ∷ (
      2,
      0 ∷ 1 ∷ 3 ∷ 4 ∷ 5 ∷ 6 ∷ 7 ∷ 8 ∷ 9 ∷ 10 ∷ 11 ∷ 12 ∷ 16 ∷ 17 ∷ 18 ∷ 19 ∷ 20 ∷ 26 ∷ 29 ∷ 34 ∷ 38
          ∷ 42 ∷ 47 ∷ 50 ∷ 58 ∷ [],
    )
    ∷ (
      3,
      0 ∷ 1 ∷ 2 ∷ 4 ∷ 5 ∷ 6 ∷ 7 ∷ 9 ∷ 10 ∷ 11 ∷ 12 ∷ 13 ∷ 17 ∷ 18 ∷ 19 ∷ 20 ∷ 21 ∷ 24 ∷ 27 ∷ 30 ∷ 35
          ∷ 39 ∷ 43 ∷ 51 ∷ 59 ∷ [],
    )
    ∷ (
      4,
      0 ∷ 1 ∷ 2 ∷ 3 ∷ 5 ∷ 6 ∷ 7 ∷ 10 ∷ 11 ∷ 12 ∷ 13 ∷ 14 ∷ 18 ∷ 19 ∷ 20 ∷ 21 ∷ 22 ∷ 25 ∷ 28 ∷ 31
          ∷ 32 ∷ 36 ∷ 44 ∷ 52 ∷ 60 ∷ [],
    )
    ∷ (
      5,
      0 ∷ 1 ∷ 2 ∷ 3 ∷ 4 ∷ 6 ∷ 7 ∷ 11 ∷ 12 ∷ 13 ∷ 14 ∷ 15 ∷ 19 ∷ 20 ∷ 21 ∷ 22 ∷ 23 ∷ 26 ∷ 29 ∷ 33
          ∷ 37 ∷ 40 ∷ 45 ∷ 53 ∷ 61 ∷ [],
    )
    ∷ (
      6,
      0 ∷ 1 ∷ 2 ∷ 3 ∷ 4 ∷ 5 ∷ 7 ∷ 12 ∷ 13 ∷ 14 ∷ 15 ∷ 20 ∷ 21 ∷ 22 ∷ 23 ∷ 27 ∷ 30 ∷ 34 ∷ 38 ∷ 41
          ∷ 46 ∷ 48 ∷ 54 ∷ 62 ∷ [],
    )
    ∷ (
      7,
      0 ∷ 1 ∷ 2 ∷ 3 ∷ 4 ∷ 5 ∷ 6 ∷ 13 ∷ 14 ∷ 15 ∷ 21 ∷ 22 ∷ 23 ∷ 28 ∷ 31 ∷ 35 ∷ 39 ∷ 42 ∷ 47 ∷ 49
          ∷ 55 ∷ 56 ∷ 63 ∷ [],
    )
    ∷ (
      8,
      0 ∷ 1 ∷ 2 ∷ 9 ∷ 10 ∷ 11 ∷ 12 ∷ 13 ∷ 14 ∷ 15 ∷ 16 ∷ 17 ∷ 18 ∷ 24 ∷ 25 ∷ 26 ∷ 32 ∷ 35 ∷ 40 ∷ 44
          ∷ 48 ∷ 53 ∷ 56 ∷ 62 ∷ [],
    )
    ∷ (
      9,
      0 ∷ 1 ∷ 2 ∷ 3 ∷ 8 ∷ 10 ∷ 11 ∷ 12 ∷ 13 ∷ 14 ∷ 15 ∷ 16 ∷ 17 ∷ 18 ∷ 19 ∷ 24 ∷ 25 ∷ 26 ∷ 27 ∷ 33
          ∷ 36 ∷ 41 ∷ 45 ∷ 49 ∷ 54 ∷ 57 ∷ 63 ∷ [],
    )
    ∷ (
      10,
      0 ∷ 1 ∷ 2 ∷ 3 ∷ 4 ∷ 8 ∷ 9 ∷ 11 ∷ 12 ∷ 13 ∷ 14 ∷ 15 ∷ 16 ∷ 17 ∷ 18 ∷ 19 ∷ 20 ∷ 24 ∷ 25 ∷ 26
          ∷ 27 ∷ 28 ∷ 34 ∷ 37 ∷ 42 ∷ 46 ∷ 50 ∷ 55 ∷ 58 ∷ [],
    )
    ∷ (
      11,
      1 ∷ 2 ∷ 3 ∷ 4 ∷ 5 ∷ 8 ∷ 9 ∷ 10 ∷ 12 ∷ 13 ∷ 14 ∷ 15 ∷ 17 ∷ 18 ∷ 19 ∷ 20 ∷ 21 ∷ 25 ∷ 26 ∷ 27
          ∷ 28 ∷ 29 ∷ 32 ∷ 35 ∷ 38 ∷ 43 ∷ 47 ∷ 51 ∷ 59 ∷ [],
    )
    ∷ (
      12,
      2 ∷ 3 ∷ 4 ∷ 5 ∷ 6 ∷ 8 ∷ 9 ∷ 10 ∷ 11 ∷ 13 ∷ 14 ∷ 15 ∷ 18 ∷ 19 ∷ 20 ∷ 21 ∷ 22 ∷ 26 ∷ 27 ∷ 28
          ∷ 29 ∷ 30 ∷ 33 ∷ 36 ∷ 39 ∷ 40 ∷ 44 ∷ 52 ∷ 60 ∷ [],
    )
    ∷ (
      13,
      3 ∷ 4 ∷ 5 ∷ 6 ∷ 7 ∷ 8 ∷ 9 ∷ 10 ∷ 11 ∷ 12 ∷ 14 ∷ 15 ∷ 19 ∷ 20 ∷ 21 ∷ 22 ∷ 23 ∷ 27 ∷ 28 ∷ 29
          ∷ 30 ∷ 31 ∷ 34 ∷ 37 ∷ 41 ∷ 45 ∷ 48 ∷ 53 ∷ 61 ∷ [],
    )
    ∷ (
      14,
      4 ∷ 5 ∷ 6 ∷ 7 ∷ 8 ∷ 9 ∷ 10 ∷ 11 ∷ 12 ∷ 13 ∷ 15 ∷ 20 ∷ 21 ∷ 22 ∷ 23 ∷ 28 ∷ 29 ∷ 30 ∷ 31 ∷ 35
          ∷ 38 ∷ 42 ∷ 46 ∷ 49 ∷ 54 ∷ 56 ∷ 62 ∷ [],
    )
    ∷ (
      15,
      5 ∷ 6 ∷ 7 ∷ 8 ∷ 9 ∷ 10 ∷ 11 ∷ 12 ∷ 13 ∷ 14 ∷ 21 ∷ 22 ∷ 23 ∷ 29 ∷ 30 ∷ 31 ∷ 36 ∷ 39 ∷ 43 ∷ 47
          ∷ 50 ∷ 55 ∷ 57 ∷ 63 ∷ [],
    )
    ∷ (
      16,
      0 ∷ 1 ∷ 2 ∷ 8 ∷ 9 ∷ 10 ∷ 17 ∷ 18 ∷ 19 ∷ 20 ∷ 21 ∷ 22 ∷ 23 ∷ 24 ∷ 25 ∷ 26 ∷ 32 ∷ 33 ∷ 34 ∷ 40
          ∷ 43 ∷ 48 ∷ 52 ∷ 56 ∷ 61 ∷ [],
    )
    ∷ (
      17,
      0 ∷ 1 ∷ 2 ∷ 3 ∷ 8 ∷ 9 ∷ 10 ∷ 11 ∷ 16 ∷ 18 ∷ 19 ∷ 20 ∷ 21 ∷ 22 ∷ 23 ∷ 24 ∷ 25 ∷ 26 ∷ 27 ∷ 32
          ∷ 33 ∷ 34 ∷ 35 ∷ 41 ∷ 44 ∷ 49 ∷ 53 ∷ 57 ∷ 62 ∷ [],
    )
    ∷ (
      18,
      0 ∷ 1 ∷ 2 ∷ 3 ∷ 4 ∷ 8 ∷ 9 ∷ 10 ∷ 11 ∷ 12 ∷ 16 ∷ 17 ∷ 19 ∷ 20 ∷ 21 ∷ 22 ∷ 23 ∷ 24 ∷ 25 ∷ 26
          ∷ 27 ∷ 28 ∷ 32 ∷ 33 ∷ 34 ∷ 35 ∷ 36 ∷ 42 ∷ 45 ∷ 50 ∷ 54 ∷ 58 ∷ 63 ∷ [],
    )
    ∷ (
      19,
      1 ∷ 2 ∷ 3 ∷ 4 ∷ 5 ∷ 9 ∷ 10 ∷ 11 ∷ 12 ∷ 13 ∷ 16 ∷ 17 ∷ 18 ∷ 20 ∷ 21 ∷ 22 ∷ 23 ∷ 25 ∷ 26 ∷ 27
          ∷ 28 ∷ 29 ∷ 33 ∷ 34 ∷ 35 ∷ 36 ∷ 37 ∷ 40 ∷ 43 ∷ 46 ∷ 51 ∷ 55 ∷ 59 ∷ [],
    )
    ∷ (
      20,
      2 ∷ 3 ∷ 4 ∷ 5 ∷ 6 ∷ 10 ∷ 11 ∷ 12 ∷ 13 ∷ 14 ∷ 16 ∷ 17 ∷ 18 ∷ 19 ∷ 21 ∷ 22 ∷ 23 ∷ 26 ∷ 27 ∷ 28
          ∷ 29 ∷ 30 ∷ 34 ∷ 35 ∷ 36 ∷ 37 ∷ 38 ∷ 41 ∷ 44 ∷ 47 ∷ 48 ∷ 52 ∷ 60 ∷ [],
    )
    ∷ (
      21,
      3 ∷ 4 ∷ 5 ∷ 6 ∷ 7 ∷ 11 ∷ 12 ∷ 13 ∷ 14 ∷ 15 ∷ 16 ∷ 17 ∷ 18 ∷ 19 ∷ 20 ∷ 22 ∷ 23 ∷ 27 ∷ 28 ∷ 29
          ∷ 30 ∷ 31 ∷ 35 ∷ 36 ∷ 37 ∷ 38 ∷ 39 ∷ 42 ∷ 45 ∷ 49 ∷ 53 ∷ 56 ∷ 61 ∷ [],
    )
    ∷ (
      22,
      4 ∷ 5 ∷ 6 ∷ 7 ∷ 12 ∷ 13 ∷ 14 ∷ 15 ∷ 16 ∷ 17 ∷ 18 ∷ 19 ∷ 20 ∷ 21 ∷ 23 ∷ 28 ∷ 29 ∷ 30 ∷ 31 ∷ 36
          ∷ 37 ∷ 38 ∷ 39 ∷ 43 ∷ 46 ∷ 50 ∷ 54 ∷ 57 ∷ 62 ∷ [],
    )
    ∷ (
      23,
      5 ∷ 6 ∷ 7 ∷ 13 ∷ 14 ∷ 15 ∷ 16 ∷ 17 ∷ 18 ∷ 19 ∷ 20 ∷ 21 ∷ 22 ∷ 29 ∷ 30 ∷ 31 ∷ 37 ∷ 38 ∷ 39 ∷ 44
          ∷ 47 ∷ 51 ∷ 55 ∷ 58 ∷ 63 ∷ [],
    )
    ∷ (
      24,
      0 ∷ 3 ∷ 8 ∷ 9 ∷ 10 ∷ 16 ∷ 17 ∷ 18 ∷ 25 ∷ 26 ∷ 27 ∷ 28 ∷ 29 ∷ 30 ∷ 31 ∷ 32 ∷ 33 ∷ 34 ∷ 40 ∷ 41
          ∷ 42 ∷ 48 ∷ 51 ∷ 56 ∷ 60 ∷ [],
    )
    ∷ (
      25,
      1 ∷ 4 ∷ 8 ∷ 9 ∷ 10 ∷ 11 ∷ 16 ∷ 17 ∷ 18 ∷ 19 ∷ 24 ∷ 26 ∷ 27 ∷ 28 ∷ 29 ∷ 30 ∷ 31 ∷ 32 ∷ 33 ∷ 34
          ∷ 35 ∷ 40 ∷ 41 ∷ 42 ∷ 43 ∷ 49 ∷ 52 ∷ 57 ∷ 61 ∷ [],
    )
    ∷ (
      26,
      2 ∷ 5 ∷ 8 ∷ 9 ∷ 10 ∷ 11 ∷ 12 ∷ 16 ∷ 17 ∷ 18 ∷ 19 ∷ 20 ∷ 24 ∷ 25 ∷ 27 ∷ 28 ∷ 29 ∷ 30 ∷ 31 ∷ 32
          ∷ 33 ∷ 34 ∷ 35 ∷ 36 ∷ 40 ∷ 41 ∷ 42 ∷ 43 ∷ 44 ∷ 50 ∷ 53 ∷ 58 ∷ 62 ∷ [],
    )
    ∷ (
      27,
      0 ∷ 3 ∷ 6 ∷ 9 ∷ 10 ∷ 11 ∷ 12 ∷ 13 ∷ 17 ∷ 18 ∷ 19 ∷ 20 ∷ 21 ∷ 24 ∷ 25 ∷ 26 ∷ 28 ∷ 29 ∷ 30 ∷ 31
          ∷ 33 ∷ 34 ∷ 35 ∷ 36 ∷ 37 ∷ 41 ∷ 42 ∷ 43 ∷ 44 ∷ 45 ∷ 48 ∷ 51 ∷ 54 ∷ 59 ∷ 63 ∷ [],
    )
    ∷ (
      28,
      1 ∷ 4 ∷ 7 ∷ 10 ∷ 11 ∷ 12 ∷ 13 ∷ 14 ∷ 18 ∷ 19 ∷ 20 ∷ 21 ∷ 22 ∷ 24 ∷ 25 ∷ 26 ∷ 27 ∷ 29 ∷ 30 ∷ 31
          ∷ 34 ∷ 35 ∷ 36 ∷ 37 ∷ 38 ∷ 42 ∷ 43 ∷ 44 ∷ 45 ∷ 46 ∷ 49 ∷ 52 ∷ 55 ∷ 56 ∷ 60 ∷ [],
    )
    ∷ (
      29,
      2 ∷ 5 ∷ 11 ∷ 12 ∷ 13 ∷ 14 ∷ 15 ∷ 19 ∷ 20 ∷ 21 ∷ 22 ∷ 23 ∷ 24 ∷ 25 ∷ 26 ∷ 27 ∷ 28 ∷ 30 ∷ 31
          ∷ 35 ∷ 36 ∷ 37 ∷ 38 ∷ 39 ∷ 43 ∷ 44 ∷ 45 ∷ 46 ∷ 47 ∷ 50 ∷ 53 ∷ 57 ∷ 61 ∷ [],
    )
    ∷ (
      30,
      3 ∷ 6 ∷ 12 ∷ 13 ∷ 14 ∷ 15 ∷ 20 ∷ 21 ∷ 22 ∷ 23 ∷ 24 ∷ 25 ∷ 26 ∷ 27 ∷ 28 ∷ 29 ∷ 31 ∷ 36 ∷ 37
          ∷ 38 ∷ 39 ∷ 44 ∷ 45 ∷ 46 ∷ 47 ∷ 51 ∷ 54 ∷ 58 ∷ 62 ∷ [],
    )
    ∷ (
      31,
      4 ∷ 7 ∷ 13 ∷ 14 ∷ 15 ∷ 21 ∷ 22 ∷ 23 ∷ 24 ∷ 25 ∷ 26 ∷ 27 ∷ 28 ∷ 29 ∷ 30 ∷ 37 ∷ 38 ∷ 39 ∷ 45
          ∷ 46 ∷ 47 ∷ 52 ∷ 55 ∷ 59 ∷ 63 ∷ [],
    )
    ∷ []
