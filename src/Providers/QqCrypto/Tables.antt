-- ===== src/Providers/QqCrypto/Tables.antt =====
-- The tables of internal/providers/qqmusic_crypto.go: permutations as pairs of a source and a
-- target bit, substitution boxes and the rows of the key schedule.
use lyrics_plus.Common.{ℕ, Bool, true, false, List, [], ◌∷◌}

-- `s0`: bit of the block, bit of the word
abbrev pub initial_left : List (ℕ × ℕ)
initial_left =
    (57, 31)
    ∷ (49, 30)
    ∷ (41, 29)
    ∷ (33, 28)
    ∷ (25, 27)
    ∷ (17, 26)
    ∷ (9, 25)
    ∷ (1, 24)
    ∷ (59, 23)
    ∷ (51, 22)
    ∷ (43, 21)
    ∷ (35, 20)
    ∷ (27, 19)
    ∷ (19, 18)
    ∷ (11, 17)
    ∷ (3, 16)
    ∷ (61, 15)
    ∷ (53, 14)
    ∷ (45, 13)
    ∷ (37, 12)
    ∷ (29, 11)
    ∷ (21, 10)
    ∷ (13, 9)
    ∷ (5, 8)
    ∷ (63, 7)
    ∷ (55, 6)
    ∷ (47, 5)
    ∷ (39, 4)
    ∷ (31, 3)
    ∷ (23, 2)
    ∷ (15, 1)
    ∷ (7, 0)
    ∷ []

-- `s1`: bit of the block, bit of the word
abbrev pub initial_right : List (ℕ × ℕ)
initial_right =
    (56, 31)
    ∷ (48, 30)
    ∷ (40, 29)
    ∷ (32, 28)
    ∷ (24, 27)
    ∷ (16, 26)
    ∷ (8, 25)
    ∷ (0, 24)
    ∷ (58, 23)
    ∷ (50, 22)
    ∷ (42, 21)
    ∷ (34, 20)
    ∷ (26, 19)
    ∷ (18, 18)
    ∷ (10, 17)
    ∷ (2, 16)
    ∷ (60, 15)
    ∷ (52, 14)
    ∷ (44, 13)
    ∷ (36, 12)
    ∷ (28, 11)
    ∷ (20, 10)
    ∷ (12, 9)
    ∷ (4, 8)
    ∷ (62, 7)
    ∷ (54, 6)
    ∷ (46, 5)
    ∷ (38, 4)
    ∷ (30, 3)
    ∷ (22, 2)
    ∷ (14, 1)
    ∷ (6, 0)
    ∷ []

abbrev inverse_0 : List ((Bool × ℕ) × ℕ)
inverse_0 =
    ((true, 4), 7)
    ∷ ((false, 4), 6)
    ∷ ((true, 12), 5)
    ∷ ((false, 12), 4)
    ∷ ((true, 20), 3)
    ∷ ((false, 20), 2)
    ∷ ((true, 28), 1)
    ∷ ((false, 28), 0)
    ∷ []

abbrev inverse_1 : List ((Bool × ℕ) × ℕ)
inverse_1 =
    ((true, 5), 7)
    ∷ ((false, 5), 6)
    ∷ ((true, 13), 5)
    ∷ ((false, 13), 4)
    ∷ ((true, 21), 3)
    ∷ ((false, 21), 2)
    ∷ ((true, 29), 1)
    ∷ ((false, 29), 0)
    ∷ []

abbrev inverse_2 : List ((Bool × ℕ) × ℕ)
inverse_2 =
    ((true, 6), 7)
    ∷ ((false, 6), 6)
    ∷ ((true, 14), 5)
    ∷ ((false, 14), 4)
    ∷ ((true, 22), 3)
    ∷ ((false, 22), 2)
    ∷ ((true, 30), 1)
    ∷ ((false, 30), 0)
    ∷ []

abbrev inverse_3 : List ((Bool × ℕ) × ℕ)
inverse_3 =
    ((true, 7), 7)
    ∷ ((false, 7), 6)
    ∷ ((true, 15), 5)
    ∷ ((false, 15), 4)
    ∷ ((true, 23), 3)
    ∷ ((false, 23), 2)
    ∷ ((true, 31), 1)
    ∷ ((false, 31), 0)
    ∷ []

abbrev inverse_4 : List ((Bool × ℕ) × ℕ)
inverse_4 =
    ((true, 0), 7)
    ∷ ((false, 0), 6)
    ∷ ((true, 8), 5)
    ∷ ((false, 8), 4)
    ∷ ((true, 16), 3)
    ∷ ((false, 16), 2)
    ∷ ((true, 24), 1)
    ∷ ((false, 24), 0)
    ∷ []

abbrev inverse_5 : List ((Bool × ℕ) × ℕ)
inverse_5 =
    ((true, 1), 7)
    ∷ ((false, 1), 6)
    ∷ ((true, 9), 5)
    ∷ ((false, 9), 4)
    ∷ ((true, 17), 3)
    ∷ ((false, 17), 2)
    ∷ ((true, 25), 1)
    ∷ ((false, 25), 0)
    ∷ []

abbrev inverse_6 : List ((Bool × ℕ) × ℕ)
inverse_6 =
    ((true, 2), 7)
    ∷ ((false, 2), 6)
    ∷ ((true, 10), 5)
    ∷ ((false, 10), 4)
    ∷ ((true, 18), 3)
    ∷ ((false, 18), 2)
    ∷ ((true, 26), 1)
    ∷ ((false, 26), 0)
    ∷ []

abbrev inverse_7 : List ((Bool × ℕ) × ℕ)
inverse_7 =
    ((true, 3), 7)
    ∷ ((false, 3), 6)
    ∷ ((true, 11), 5)
    ∷ ((false, 11), 4)
    ∷ ((true, 19), 3)
    ∷ ((false, 19), 2)
    ∷ ((true, 27), 1)
    ∷ ((false, 27), 0)
    ∷ []

-- The bytes `data[0]` to `data[7]`: whether the bit is taken from `s1`, which bit of the word,
-- bit of the byte
abbrev pub inverse_bytes : List (List ((Bool × ℕ) × ℕ))
inverse_bytes =
    inverse_0 ∷ inverse_1 ∷ inverse_2 ∷ inverse_3 ∷ inverse_4 ∷ inverse_5 ∷ inverse_6 ∷ inverse_7
    ∷ []

-- The permutation that ends `f`
abbrev pub round_permutation : List (ℕ × ℕ)
round_permutation =
    (15, 0)
    ∷ (6, 1)
    ∷ (19, 2)
    ∷ (20, 3)
    ∷ (28, 4)
    ∷ (11, 5)
    ∷ (27, 6)
    ∷ (16, 7)
    ∷ (0, 8)
    ∷ (14, 9)
    ∷ (22, 10)
    ∷ (25, 11)
    ∷ (4, 12)
    ∷ (17, 13)
    ∷ (30, 14)
    ∷ (9, 15)
    ∷ (1, 16)
    ∷ (7, 17)
    ∷ (23, 18)
    ∷ (13, 19)
    ∷ (31, 20)
    ∷ (26, 21)
    ∷ (2, 22)
    ∷ (8, 23)
    ∷ (18, 24)
    ∷ (12, 25)
    ∷ (29, 26)
    ∷ (5, 27)
    ∷ (21, 28)
    ∷ (10, 29)
    ∷ (3, 30)
    ∷ (24, 31)
    ∷ []

abbrev box_0 : List ℕ
box_0 =
    14 ∷ 4 ∷ 13 ∷ 1 ∷ 2 ∷ 15 ∷ 11 ∷ 8 ∷ 3 ∷ 10 ∷ 6 ∷ 12 ∷ 5 ∷ 9 ∷ 0 ∷ 7 ∷ 0 ∷ 15 ∷ 7 ∷ 4 ∷ 14 ∷ 2
    ∷ 13 ∷ 1 ∷ 10 ∷ 6 ∷ 12 ∷ 11 ∷ 9 ∷ 5 ∷ 3 ∷ 8 ∷ 4 ∷ 1 ∷ 14 ∷ 8 ∷ 13 ∷ 6 ∷ 2 ∷ 11 ∷ 15 ∷ 12 ∷ 9 ∷ 7
    ∷ 3 ∷ 10 ∷ 5 ∷ 0 ∷ 15 ∷ 12 ∷ 8 ∷ 2 ∷ 4 ∷ 9 ∷ 1 ∷ 7 ∷ 5 ∷ 11 ∷ 3 ∷ 14 ∷ 10 ∷ 0 ∷ 6 ∷ 13 ∷ []

abbrev box_1 : List ℕ
box_1 =
    15 ∷ 1 ∷ 8 ∷ 14 ∷ 6 ∷ 11 ∷ 3 ∷ 4 ∷ 9 ∷ 7 ∷ 2 ∷ 13 ∷ 12 ∷ 0 ∷ 5 ∷ 10 ∷ 3 ∷ 13 ∷ 4 ∷ 7 ∷ 15 ∷ 2
    ∷ 8 ∷ 15 ∷ 12 ∷ 0 ∷ 1 ∷ 10 ∷ 6 ∷ 9 ∷ 11 ∷ 5 ∷ 0 ∷ 14 ∷ 7 ∷ 11 ∷ 10 ∷ 4 ∷ 13 ∷ 1 ∷ 5 ∷ 8 ∷ 12 ∷ 6
    ∷ 9 ∷ 3 ∷ 2 ∷ 15 ∷ 13 ∷ 8 ∷ 10 ∷ 1 ∷ 3 ∷ 15 ∷ 4 ∷ 2 ∷ 11 ∷ 6 ∷ 7 ∷ 12 ∷ 0 ∷ 5 ∷ 14 ∷ 9 ∷ []

abbrev box_2 : List ℕ
box_2 =
    10 ∷ 0 ∷ 9 ∷ 14 ∷ 6 ∷ 3 ∷ 15 ∷ 5 ∷ 1 ∷ 13 ∷ 12 ∷ 7 ∷ 11 ∷ 4 ∷ 2 ∷ 8 ∷ 13 ∷ 7 ∷ 0 ∷ 9 ∷ 3 ∷ 4 ∷ 6
    ∷ 10 ∷ 2 ∷ 8 ∷ 5 ∷ 14 ∷ 12 ∷ 11 ∷ 15 ∷ 1 ∷ 13 ∷ 6 ∷ 4 ∷ 9 ∷ 8 ∷ 15 ∷ 3 ∷ 0 ∷ 11 ∷ 1 ∷ 2 ∷ 12 ∷ 5
    ∷ 10 ∷ 14 ∷ 7 ∷ 1 ∷ 10 ∷ 13 ∷ 0 ∷ 6 ∷ 9 ∷ 8 ∷ 7 ∷ 4 ∷ 15 ∷ 14 ∷ 3 ∷ 11 ∷ 5 ∷ 2 ∷ 12 ∷ []

abbrev box_3 : List ℕ
box_3 =
    7 ∷ 13 ∷ 14 ∷ 3 ∷ 0 ∷ 6 ∷ 9 ∷ 10 ∷ 1 ∷ 2 ∷ 8 ∷ 5 ∷ 11 ∷ 12 ∷ 4 ∷ 15 ∷ 13 ∷ 8 ∷ 11 ∷ 5 ∷ 6 ∷ 15
    ∷ 0 ∷ 3 ∷ 4 ∷ 7 ∷ 2 ∷ 12 ∷ 1 ∷ 10 ∷ 14 ∷ 9 ∷ 10 ∷ 6 ∷ 9 ∷ 0 ∷ 12 ∷ 11 ∷ 7 ∷ 13 ∷ 15 ∷ 1 ∷ 3 ∷ 14
    ∷ 5 ∷ 2 ∷ 8 ∷ 4 ∷ 3 ∷ 15 ∷ 0 ∷ 6 ∷ 10 ∷ 10 ∷ 13 ∷ 8 ∷ 9 ∷ 4 ∷ 5 ∷ 11 ∷ 12 ∷ 7 ∷ 2 ∷ 14 ∷ []

abbrev box_4 : List ℕ
box_4 =
    2 ∷ 12 ∷ 4 ∷ 1 ∷ 7 ∷ 10 ∷ 11 ∷ 6 ∷ 8 ∷ 5 ∷ 3 ∷ 15 ∷ 13 ∷ 0 ∷ 14 ∷ 9 ∷ 14 ∷ 11 ∷ 2 ∷ 12 ∷ 4 ∷ 7
    ∷ 13 ∷ 1 ∷ 5 ∷ 0 ∷ 15 ∷ 10 ∷ 3 ∷ 9 ∷ 8 ∷ 6 ∷ 4 ∷ 2 ∷ 1 ∷ 11 ∷ 10 ∷ 13 ∷ 7 ∷ 8 ∷ 15 ∷ 9 ∷ 12 ∷ 5
    ∷ 6 ∷ 3 ∷ 0 ∷ 14 ∷ 11 ∷ 8 ∷ 12 ∷ 7 ∷ 1 ∷ 14 ∷ 2 ∷ 13 ∷ 6 ∷ 15 ∷ 0 ∷ 9 ∷ 10 ∷ 4 ∷ 5 ∷ 3 ∷ []

abbrev box_5 : List ℕ
box_5 =
    12 ∷ 1 ∷ 10 ∷ 15 ∷ 9 ∷ 2 ∷ 6 ∷ 8 ∷ 0 ∷ 13 ∷ 3 ∷ 4 ∷ 14 ∷ 7 ∷ 5 ∷ 11 ∷ 10 ∷ 15 ∷ 4 ∷ 2 ∷ 7 ∷ 12
    ∷ 9 ∷ 5 ∷ 6 ∷ 1 ∷ 13 ∷ 14 ∷ 0 ∷ 11 ∷ 3 ∷ 8 ∷ 9 ∷ 14 ∷ 15 ∷ 5 ∷ 2 ∷ 8 ∷ 12 ∷ 3 ∷ 7 ∷ 0 ∷ 4 ∷ 10
    ∷ 1 ∷ 13 ∷ 11 ∷ 6 ∷ 4 ∷ 3 ∷ 2 ∷ 12 ∷ 9 ∷ 5 ∷ 15 ∷ 10 ∷ 11 ∷ 14 ∷ 1 ∷ 7 ∷ 6 ∷ 0 ∷ 8 ∷ 13 ∷ []

abbrev box_6 : List ℕ
box_6 =
    4 ∷ 11 ∷ 2 ∷ 14 ∷ 15 ∷ 0 ∷ 8 ∷ 13 ∷ 3 ∷ 12 ∷ 9 ∷ 7 ∷ 5 ∷ 10 ∷ 6 ∷ 1 ∷ 13 ∷ 0 ∷ 11 ∷ 7 ∷ 4 ∷ 9
    ∷ 1 ∷ 10 ∷ 14 ∷ 3 ∷ 5 ∷ 12 ∷ 2 ∷ 15 ∷ 8 ∷ 6 ∷ 1 ∷ 4 ∷ 11 ∷ 13 ∷ 12 ∷ 3 ∷ 7 ∷ 14 ∷ 10 ∷ 15 ∷ 6
    ∷ 8 ∷ 0 ∷ 5 ∷ 9 ∷ 2 ∷ 6 ∷ 11 ∷ 13 ∷ 8 ∷ 1 ∷ 4 ∷ 10 ∷ 7 ∷ 9 ∷ 5 ∷ 0 ∷ 15 ∷ 14 ∷ 2 ∷ 3 ∷ 12 ∷ []

abbrev box_7 : List ℕ
box_7 =
    13 ∷ 2 ∷ 8 ∷ 4 ∷ 6 ∷ 15 ∷ 11 ∷ 1 ∷ 10 ∷ 9 ∷ 3 ∷ 14 ∷ 5 ∷ 0 ∷ 12 ∷ 7 ∷ 1 ∷ 15 ∷ 13 ∷ 8 ∷ 10 ∷ 3
    ∷ 7 ∷ 4 ∷ 12 ∷ 5 ∷ 6 ∷ 11 ∷ 0 ∷ 14 ∷ 9 ∷ 2 ∷ 7 ∷ 11 ∷ 4 ∷ 1 ∷ 9 ∷ 12 ∷ 14 ∷ 2 ∷ 0 ∷ 6 ∷ 10 ∷ 13
    ∷ 15 ∷ 3 ∷ 5 ∷ 8 ∷ 2 ∷ 1 ∷ 14 ∷ 7 ∷ 4 ∷ 10 ∷ 8 ∷ 13 ∷ 15 ∷ 12 ∷ 9 ∷ 0 ∷ 3 ∷ 5 ∷ 6 ∷ 11 ∷ []

abbrev pub sbox : List (List ℕ)
sbox = box_0 ∷ box_1 ∷ box_2 ∷ box_3 ∷ box_4 ∷ box_5 ∷ box_6 ∷ box_7 ∷ []

abbrev pub key_perm_c : List ℕ
key_perm_c =
    56 ∷ 48 ∷ 40 ∷ 32 ∷ 24 ∷ 16 ∷ 8 ∷ 0 ∷ 57 ∷ 49 ∷ 41 ∷ 33 ∷ 25 ∷ 17 ∷ 9 ∷ 1 ∷ 58 ∷ 50 ∷ 42 ∷ 34
    ∷ 26 ∷ 18 ∷ 10 ∷ 2 ∷ 59 ∷ 51 ∷ 43 ∷ 35 ∷ []

abbrev pub key_perm_d : List ℕ
key_perm_d =
    62 ∷ 54 ∷ 46 ∷ 38 ∷ 30 ∷ 22 ∷ 14 ∷ 6 ∷ 61 ∷ 53 ∷ 45 ∷ 37 ∷ 29 ∷ 21 ∷ 13 ∷ 5 ∷ 60 ∷ 52 ∷ 44 ∷ 36
    ∷ 28 ∷ 20 ∷ 12 ∷ 4 ∷ 27 ∷ 19 ∷ 11 ∷ 3 ∷ []

abbrev pub key_rnd_shift : List ℕ
key_rnd_shift = 1 ∷ 1 ∷ 2 ∷ 2 ∷ 2 ∷ 2 ∷ 2 ∷ 2 ∷ 1 ∷ 2 ∷ 2 ∷ 2 ∷ 2 ∷ 2 ∷ 2 ∷ 1 ∷ []

abbrev row_0 : List ℕ
row_0 = 13 ∷ 16 ∷ 10 ∷ 23 ∷ 0 ∷ 4 ∷ 2 ∷ 27 ∷ []

abbrev row_1 : List ℕ
row_1 = 14 ∷ 5 ∷ 20 ∷ 9 ∷ 22 ∷ 18 ∷ 11 ∷ 3 ∷ []

abbrev row_2 : List ℕ
row_2 = 25 ∷ 7 ∷ 15 ∷ 6 ∷ 26 ∷ 19 ∷ 12 ∷ 1 ∷ []

abbrev row_3 : List ℕ
row_3 = 40 ∷ 51 ∷ 30 ∷ 36 ∷ 46 ∷ 54 ∷ 29 ∷ 39 ∷ []

abbrev row_4 : List ℕ
row_4 = 50 ∷ 44 ∷ 32 ∷ 47 ∷ 43 ∷ 48 ∷ 38 ∷ 55 ∷ []

abbrev row_5 : List ℕ
row_5 = 33 ∷ 52 ∷ 45 ∷ 41 ∷ 49 ∷ 35 ∷ 28 ∷ 31 ∷ []

-- `keyCompression`, the entries 0 to 23 and 24 to 47, eight to a byte
abbrev pub compression_c : List (List ℕ)
compression_c = row_0 ∷ row_1 ∷ row_2 ∷ []

abbrev pub compression_d : List (List ℕ)
compression_d = row_3 ∷ row_4 ∷ row_5 ∷ []

-- `!@#)(*$%123ZXC!@!@#)(NHL`
abbrev pub qq_key : List ℕ
qq_key =
    33 ∷ 64 ∷ 35 ∷ 41 ∷ 40 ∷ 42 ∷ 36 ∷ 37 ∷ 49 ∷ 50 ∷ 51 ∷ 90 ∷ 88 ∷ 67 ∷ 33 ∷ 64 ∷ 33 ∷ 64 ∷ 35
    ∷ 41 ∷ 40 ∷ 78 ∷ 72 ∷ 76 ∷ []
