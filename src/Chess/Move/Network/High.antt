-- ===== src/Chess/Move/Network/High.antt =====
-- The moves from ranks 5 to 8 of the table kIdxToMove of src/chess/bitboard.cc.
use fat_fritz.Common.{ℕ, List, [], ◌∷◌}

-- Each entry is a source square and its destinations, in the order of the table.
abbrev pub high_rows : List (ℕ × List ℕ)
high_rows =
    (
      32,
      0 ∷ 4 ∷ 8 ∷ 11 ∷ 16 ∷ 17 ∷ 18 ∷ 24 ∷ 25 ∷ 26 ∷ 33 ∷ 34 ∷ 35 ∷ 36 ∷ 37 ∷ 38 ∷ 39 ∷ 40 ∷ 41 ∷ 42
          ∷ 48 ∷ 49 ∷ 50 ∷ 56 ∷ 59 ∷ [],
    )
    ∷ (
      33,
      1 ∷ 5 ∷ 9 ∷ 12 ∷ 16 ∷ 17 ∷ 18 ∷ 19 ∷ 24 ∷ 25 ∷ 26 ∷ 27 ∷ 32 ∷ 34 ∷ 35 ∷ 36 ∷ 37 ∷ 38 ∷ 39 ∷ 40
          ∷ 41 ∷ 42 ∷ 43 ∷ 48 ∷ 49 ∷ 50 ∷ 51 ∷ 57 ∷ 60 ∷ [],
    )
    ∷ (
      34,
      2 ∷ 6 ∷ 10 ∷ 13 ∷ 16 ∷ 17 ∷ 18 ∷ 19 ∷ 20 ∷ 24 ∷ 25 ∷ 26 ∷ 27 ∷ 28 ∷ 32 ∷ 33 ∷ 35 ∷ 36 ∷ 37
          ∷ 38 ∷ 39 ∷ 40 ∷ 41 ∷ 42 ∷ 43 ∷ 44 ∷ 48 ∷ 49 ∷ 50 ∷ 51 ∷ 52 ∷ 58 ∷ 61 ∷ [],
    )
    ∷ (
      35,
      3 ∷ 7 ∷ 8 ∷ 11 ∷ 14 ∷ 17 ∷ 18 ∷ 19 ∷ 20 ∷ 21 ∷ 25 ∷ 26 ∷ 27 ∷ 28 ∷ 29 ∷ 32 ∷ 33 ∷ 34 ∷ 36 ∷ 37
          ∷ 38 ∷ 39 ∷ 41 ∷ 42 ∷ 43 ∷ 44 ∷ 45 ∷ 49 ∷ 50 ∷ 51 ∷ 52 ∷ 53 ∷ 56 ∷ 59 ∷ 62 ∷ [],
    )
    ∷ (
      36,
      0 ∷ 4 ∷ 9 ∷ 12 ∷ 15 ∷ 18 ∷ 19 ∷ 20 ∷ 21 ∷ 22 ∷ 26 ∷ 27 ∷ 28 ∷ 29 ∷ 30 ∷ 32 ∷ 33 ∷ 34 ∷ 35 ∷ 37
          ∷ 38 ∷ 39 ∷ 42 ∷ 43 ∷ 44 ∷ 45 ∷ 46 ∷ 50 ∷ 51 ∷ 52 ∷ 53 ∷ 54 ∷ 57 ∷ 60 ∷ 63 ∷ [],
    )
    ∷ (
      37,
      1 ∷ 5 ∷ 10 ∷ 13 ∷ 19 ∷ 20 ∷ 21 ∷ 22 ∷ 23 ∷ 27 ∷ 28 ∷ 29 ∷ 30 ∷ 31 ∷ 32 ∷ 33 ∷ 34 ∷ 35 ∷ 36
          ∷ 38 ∷ 39 ∷ 43 ∷ 44 ∷ 45 ∷ 46 ∷ 47 ∷ 51 ∷ 52 ∷ 53 ∷ 54 ∷ 55 ∷ 58 ∷ 61 ∷ [],
    )
    ∷ (
      38,
      2 ∷ 6 ∷ 11 ∷ 14 ∷ 20 ∷ 21 ∷ 22 ∷ 23 ∷ 28 ∷ 29 ∷ 30 ∷ 31 ∷ 32 ∷ 33 ∷ 34 ∷ 35 ∷ 36 ∷ 37 ∷ 39
          ∷ 44 ∷ 45 ∷ 46 ∷ 47 ∷ 52 ∷ 53 ∷ 54 ∷ 55 ∷ 59 ∷ 62 ∷ [],
    )
    ∷ (
      39,
      3 ∷ 7 ∷ 12 ∷ 15 ∷ 21 ∷ 22 ∷ 23 ∷ 29 ∷ 30 ∷ 31 ∷ 32 ∷ 33 ∷ 34 ∷ 35 ∷ 36 ∷ 37 ∷ 38 ∷ 45 ∷ 46
          ∷ 47 ∷ 53 ∷ 54 ∷ 55 ∷ 60 ∷ 63 ∷ [],
    )
    ∷ (
      40,
      0 ∷ 5 ∷ 8 ∷ 12 ∷ 16 ∷ 19 ∷ 24 ∷ 25 ∷ 26 ∷ 32 ∷ 33 ∷ 34 ∷ 41 ∷ 42 ∷ 43 ∷ 44 ∷ 45 ∷ 46 ∷ 47 ∷ 48
          ∷ 49 ∷ 50 ∷ 56 ∷ 57 ∷ 58 ∷ [],
    )
    ∷ (
      41,
      1 ∷ 6 ∷ 9 ∷ 13 ∷ 17 ∷ 20 ∷ 24 ∷ 25 ∷ 26 ∷ 27 ∷ 32 ∷ 33 ∷ 34 ∷ 35 ∷ 40 ∷ 42 ∷ 43 ∷ 44 ∷ 45 ∷ 46
          ∷ 47 ∷ 48 ∷ 49 ∷ 50 ∷ 51 ∷ 56 ∷ 57 ∷ 58 ∷ 59 ∷ [],
    )
    ∷ (
      42,
      2 ∷ 7 ∷ 10 ∷ 14 ∷ 18 ∷ 21 ∷ 24 ∷ 25 ∷ 26 ∷ 27 ∷ 28 ∷ 32 ∷ 33 ∷ 34 ∷ 35 ∷ 36 ∷ 40 ∷ 41 ∷ 43
          ∷ 44 ∷ 45 ∷ 46 ∷ 47 ∷ 48 ∷ 49 ∷ 50 ∷ 51 ∷ 52 ∷ 56 ∷ 57 ∷ 58 ∷ 59 ∷ 60 ∷ [],
    )
    ∷ (
      43,
      3 ∷ 11 ∷ 15 ∷ 16 ∷ 19 ∷ 22 ∷ 25 ∷ 26 ∷ 27 ∷ 28 ∷ 29 ∷ 33 ∷ 34 ∷ 35 ∷ 36 ∷ 37 ∷ 40 ∷ 41 ∷ 42
          ∷ 44 ∷ 45 ∷ 46 ∷ 47 ∷ 49 ∷ 50 ∷ 51 ∷ 52 ∷ 53 ∷ 57 ∷ 58 ∷ 59 ∷ 60 ∷ 61 ∷ [],
    )
    ∷ (
      44,
      4 ∷ 8 ∷ 12 ∷ 17 ∷ 20 ∷ 23 ∷ 26 ∷ 27 ∷ 28 ∷ 29 ∷ 30 ∷ 34 ∷ 35 ∷ 36 ∷ 37 ∷ 38 ∷ 40 ∷ 41 ∷ 42
          ∷ 43 ∷ 45 ∷ 46 ∷ 47 ∷ 50 ∷ 51 ∷ 52 ∷ 53 ∷ 54 ∷ 58 ∷ 59 ∷ 60 ∷ 61 ∷ 62 ∷ [],
    )
    ∷ (
      45,
      0 ∷ 5 ∷ 9 ∷ 13 ∷ 18 ∷ 21 ∷ 27 ∷ 28 ∷ 29 ∷ 30 ∷ 31 ∷ 35 ∷ 36 ∷ 37 ∷ 38 ∷ 39 ∷ 40 ∷ 41 ∷ 42 ∷ 43
          ∷ 44 ∷ 46 ∷ 47 ∷ 51 ∷ 52 ∷ 53 ∷ 54 ∷ 55 ∷ 59 ∷ 60 ∷ 61 ∷ 62 ∷ 63 ∷ [],
    )
    ∷ (
      46,
      1 ∷ 6 ∷ 10 ∷ 14 ∷ 19 ∷ 22 ∷ 28 ∷ 29 ∷ 30 ∷ 31 ∷ 36 ∷ 37 ∷ 38 ∷ 39 ∷ 40 ∷ 41 ∷ 42 ∷ 43 ∷ 44
          ∷ 45 ∷ 47 ∷ 52 ∷ 53 ∷ 54 ∷ 55 ∷ 60 ∷ 61 ∷ 62 ∷ 63 ∷ [],
    )
    ∷ (
      47,
      2 ∷ 7 ∷ 11 ∷ 15 ∷ 20 ∷ 23 ∷ 29 ∷ 30 ∷ 31 ∷ 37 ∷ 38 ∷ 39 ∷ 40 ∷ 41 ∷ 42 ∷ 43 ∷ 44 ∷ 45 ∷ 46
          ∷ 53 ∷ 54 ∷ 55 ∷ 61 ∷ 62 ∷ 63 ∷ [],
    )
    ∷ (
      48,
      0 ∷ 6 ∷ 8 ∷ 13 ∷ 16 ∷ 20 ∷ 24 ∷ 27 ∷ 32 ∷ 33 ∷ 34 ∷ 40 ∷ 41 ∷ 42 ∷ 49 ∷ 50 ∷ 51 ∷ 52 ∷ 53 ∷ 54
          ∷ 55 ∷ 56 ∷ 57 ∷ 58 ∷ [],
    )
    ∷ (
      49,
      1 ∷ 7 ∷ 9 ∷ 14 ∷ 17 ∷ 21 ∷ 25 ∷ 28 ∷ 32 ∷ 33 ∷ 34 ∷ 35 ∷ 40 ∷ 41 ∷ 42 ∷ 43 ∷ 48 ∷ 50 ∷ 51 ∷ 52
          ∷ 53 ∷ 54 ∷ 55 ∷ 56 ∷ 57 ∷ 58 ∷ 59 ∷ [],
    )
    ∷ (
      50,
      2 ∷ 10 ∷ 15 ∷ 18 ∷ 22 ∷ 26 ∷ 29 ∷ 32 ∷ 33 ∷ 34 ∷ 35 ∷ 36 ∷ 40 ∷ 41 ∷ 42 ∷ 43 ∷ 44 ∷ 48 ∷ 49
          ∷ 51 ∷ 52 ∷ 53 ∷ 54 ∷ 55 ∷ 56 ∷ 57 ∷ 58 ∷ 59 ∷ 60 ∷ [],
    )
    ∷ (
      51,
      3 ∷ 11 ∷ 19 ∷ 23 ∷ 24 ∷ 27 ∷ 30 ∷ 33 ∷ 34 ∷ 35 ∷ 36 ∷ 37 ∷ 41 ∷ 42 ∷ 43 ∷ 44 ∷ 45 ∷ 48 ∷ 49
          ∷ 50 ∷ 52 ∷ 53 ∷ 54 ∷ 55 ∷ 57 ∷ 58 ∷ 59 ∷ 60 ∷ 61 ∷ [],
    )
    ∷ (
      52,
      4 ∷ 12 ∷ 16 ∷ 20 ∷ 25 ∷ 28 ∷ 31 ∷ 34 ∷ 35 ∷ 36 ∷ 37 ∷ 38 ∷ 42 ∷ 43 ∷ 44 ∷ 45 ∷ 46 ∷ 48 ∷ 49
          ∷ 50 ∷ 51 ∷ 53 ∷ 54 ∷ 55 ∷ 58 ∷ 59 ∷ 60 ∷ 61 ∷ 62 ∷ [],
    )
    ∷ (
      53,
      5 ∷ 8 ∷ 13 ∷ 17 ∷ 21 ∷ 26 ∷ 29 ∷ 35 ∷ 36 ∷ 37 ∷ 38 ∷ 39 ∷ 43 ∷ 44 ∷ 45 ∷ 46 ∷ 47 ∷ 48 ∷ 49
          ∷ 50 ∷ 51 ∷ 52 ∷ 54 ∷ 55 ∷ 59 ∷ 60 ∷ 61 ∷ 62 ∷ 63 ∷ [],
    )
    ∷ (
      54,
      0 ∷ 6 ∷ 9 ∷ 14 ∷ 18 ∷ 22 ∷ 27 ∷ 30 ∷ 36 ∷ 37 ∷ 38 ∷ 39 ∷ 44 ∷ 45 ∷ 46 ∷ 47 ∷ 48 ∷ 49 ∷ 50 ∷ 51
          ∷ 52 ∷ 53 ∷ 55 ∷ 60 ∷ 61 ∷ 62 ∷ 63 ∷ [],
    )
    ∷ (
      55,
      1 ∷ 7 ∷ 10 ∷ 15 ∷ 19 ∷ 23 ∷ 28 ∷ 31 ∷ 37 ∷ 38 ∷ 39 ∷ 45 ∷ 46 ∷ 47 ∷ 48 ∷ 49 ∷ 50 ∷ 51 ∷ 52
          ∷ 53 ∷ 54 ∷ 61 ∷ 62 ∷ 63 ∷ [],
    )
    ∷ (
      56,
      0 ∷ 7 ∷ 8 ∷ 14 ∷ 16 ∷ 21 ∷ 24 ∷ 28 ∷ 32 ∷ 35 ∷ 40 ∷ 41 ∷ 42 ∷ 48 ∷ 49 ∷ 50 ∷ 57 ∷ 58 ∷ 59 ∷ 60
          ∷ 61 ∷ 62 ∷ 63 ∷ [],
    )
    ∷ (
      57,
      1 ∷ 9 ∷ 15 ∷ 17 ∷ 22 ∷ 25 ∷ 29 ∷ 33 ∷ 36 ∷ 40 ∷ 41 ∷ 42 ∷ 43 ∷ 48 ∷ 49 ∷ 50 ∷ 51 ∷ 56 ∷ 58
          ∷ 59 ∷ 60 ∷ 61 ∷ 62 ∷ 63 ∷ [],
    )
    ∷ (
      58,
      2 ∷ 10 ∷ 18 ∷ 23 ∷ 26 ∷ 30 ∷ 34 ∷ 37 ∷ 40 ∷ 41 ∷ 42 ∷ 43 ∷ 44 ∷ 48 ∷ 49 ∷ 50 ∷ 51 ∷ 52 ∷ 56
          ∷ 57 ∷ 59 ∷ 60 ∷ 61 ∷ 62 ∷ 63 ∷ [],
    )
    ∷ (
      59,
      3 ∷ 11 ∷ 19 ∷ 27 ∷ 31 ∷ 32 ∷ 35 ∷ 38 ∷ 41 ∷ 42 ∷ 43 ∷ 44 ∷ 45 ∷ 49 ∷ 50 ∷ 51 ∷ 52 ∷ 53 ∷ 56
          ∷ 57 ∷ 58 ∷ 60 ∷ 61 ∷ 62 ∷ 63 ∷ [],
    )
    ∷ (
      60,
      4 ∷ 12 ∷ 20 ∷ 24 ∷ 28 ∷ 33 ∷ 36 ∷ 39 ∷ 42 ∷ 43 ∷ 44 ∷ 45 ∷ 46 ∷ 50 ∷ 51 ∷ 52 ∷ 53 ∷ 54 ∷ 56
          ∷ 57 ∷ 58 ∷ 59 ∷ 61 ∷ 62 ∷ 63 ∷ [],
    )
    ∷ (
      61,
      5 ∷ 13 ∷ 16 ∷ 21 ∷ 25 ∷ 29 ∷ 34 ∷ 37 ∷ 43 ∷ 44 ∷ 45 ∷ 46 ∷ 47 ∷ 51 ∷ 52 ∷ 53 ∷ 54 ∷ 55 ∷ 56
          ∷ 57 ∷ 58 ∷ 59 ∷ 60 ∷ 62 ∷ 63 ∷ [],
    )
    ∷ (
      62,
      6 ∷ 8 ∷ 14 ∷ 17 ∷ 22 ∷ 26 ∷ 30 ∷ 35 ∷ 38 ∷ 44 ∷ 45 ∷ 46 ∷ 47 ∷ 52 ∷ 53 ∷ 54 ∷ 55 ∷ 56 ∷ 57
          ∷ 58 ∷ 59 ∷ 60 ∷ 61 ∷ 63 ∷ [],
    )
    ∷ (
      63,
      0 ∷ 7 ∷ 9 ∷ 15 ∷ 18 ∷ 23 ∷ 27 ∷ 31 ∷ 36 ∷ 39 ∷ 45 ∷ 46 ∷ 47 ∷ 53 ∷ 54 ∷ 55 ∷ 56 ∷ 57 ∷ 58 ∷ 59
          ∷ 60 ∷ 61 ∷ 62 ∷ [],
    )
    ∷ []
