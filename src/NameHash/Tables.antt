-- ===== src/NameHash/Tables.antt =====
-- The four tables of src/shared/checksum/hash_tables.c.
use open_bc.Base.{ℕ, List, [], ◌∷◌}

abbrev pub hash_table_0 : List ℕ
hash_table_0 =
    0x1d ∷ 0x50 ∷ 0x7e ∷ 0x03 ∷ 0x94 ∷ 0xce ∷ 0x97 ∷ 0x7f ∷ 0x2a ∷ 0x6b ∷ 0xf1 ∷ 0x01 ∷ 0x27 ∷ 0x6d
    ∷ 0x8b ∷ 0x13 ∷ 0x9a ∷ 0xfe ∷ 0x90 ∷ 0x33 ∷ 0x81 ∷ 0xd1 ∷ 0x1e ∷ 0x48 ∷ 0xdd ∷ 0xc3 ∷ 0x9b
    ∷ 0x85 ∷ 0x8e ∷ 0x9d ∷ 0x37 ∷ 0x18 ∷ 0x36 ∷ 0x42 ∷ 0x07 ∷ 0x78 ∷ 0xb5 ∷ 0xd6 ∷ 0x82 ∷ 0x74
    ∷ 0xd9 ∷ 0xab ∷ 0x10 ∷ 0x8a ∷ 0xe2 ∷ 0x21 ∷ 0x61 ∷ 0xc0 ∷ 0x58 ∷ 0x72 ∷ 0xf7 ∷ 0x88 ∷ 0x57
    ∷ 0xed ∷ 0x32 ∷ 0x16 ∷ 0x5a ∷ 0xf9 ∷ 0x79 ∷ 0xa1 ∷ 0xba ∷ 0xfc ∷ 0xac ∷ 0x30 ∷ 0xbc ∷ 0xb4
    ∷ 0x76 ∷ 0x26 ∷ 0xbf ∷ 0xca ∷ 0x6a ∷ 0xa4 ∷ 0x2c ∷ 0xf3 ∷ 0x38 ∷ 0x25 ∷ 0xb8 ∷ 0xb0 ∷ 0x66
    ∷ 0x5d ∷ 0x1b ∷ 0x40 ∷ 0x96 ∷ 0xc1 ∷ 0xbe ∷ 0x15 ∷ 0x9c ∷ 0x39 ∷ 0xec ∷ 0xb6 ∷ 0x1a ∷ 0xa5
    ∷ 0xa0 ∷ 0x4a ∷ 0x54 ∷ 0xcc ∷ 0x5c ∷ 0xdc ∷ 0x5f ∷ 0xb7 ∷ 0xa7 ∷ 0x22 ∷ 0xd5 ∷ 0x4c ∷ 0xdf
    ∷ 0x6e ∷ 0x9e ∷ 0xda ∷ 0x0b ∷ 0x06 ∷ 0x4b ∷ 0x44 ∷ 0xaf ∷ 0x2b ∷ 0x75 ∷ 0x86 ∷ 0x64 ∷ 0xa8
    ∷ 0x53 ∷ 0x65 ∷ 0x83 ∷ 0xd7 ∷ 0xaa ∷ 0x92 ∷ 0x95 ∷ 0x47 ∷ 0xff ∷ 0x08 ∷ 0xcd ∷ 0xb1 ∷ 0xd4
    ∷ 0x35 ∷ 0x8f ∷ 0x3d ∷ 0x0f ∷ 0x00 ∷ 0xc5 ∷ 0x19 ∷ 0x43 ∷ 0xc6 ∷ 0xc2 ∷ 0x84 ∷ 0x04 ∷ 0x24
    ∷ 0xad ∷ 0x71 ∷ 0xeb ∷ 0x69 ∷ 0xe8 ∷ 0x7a ∷ 0xe1 ∷ 0x0d ∷ 0x60 ∷ 0x4d ∷ 0x4f ∷ 0x31 ∷ 0xcb
    ∷ 0xc9 ∷ 0xc8 ∷ 0x8c ∷ 0x5e ∷ 0xfd ∷ 0x17 ∷ 0xcf ∷ 0x09 ∷ 0x52 ∷ 0xe3 ∷ 0x3b ∷ 0x29 ∷ 0x0a
    ∷ 0x73 ∷ 0x56 ∷ 0x68 ∷ 0xf2 ∷ 0xd0 ∷ 0x3e ∷ 0x0c ∷ 0x91 ∷ 0xe4 ∷ 0x49 ∷ 0x14 ∷ 0x9f ∷ 0x67
    ∷ 0x63 ∷ 0xa6 ∷ 0xe6 ∷ 0xbb ∷ 0x3c ∷ 0xd2 ∷ 0x89 ∷ 0xfa ∷ 0xea ∷ 0xae ∷ 0x77 ∷ 0x20 ∷ 0x6f
    ∷ 0x8d ∷ 0x05 ∷ 0x12 ∷ 0x2d ∷ 0x5b ∷ 0x93 ∷ 0x99 ∷ 0xa3 ∷ 0xe5 ∷ 0xee ∷ 0xbd ∷ 0xc4 ∷ 0xf6
    ∷ 0x59 ∷ 0x23 ∷ 0x7d ∷ 0xd8 ∷ 0x4e ∷ 0xe0 ∷ 0xd3 ∷ 0xa9 ∷ 0x6c ∷ 0xb2 ∷ 0x1c ∷ 0x55 ∷ 0x2e
    ∷ 0x11 ∷ 0x46 ∷ 0x3f ∷ 0x70 ∷ 0xf5 ∷ 0x98 ∷ 0xef ∷ 0xe9 ∷ 0x0e ∷ 0x62 ∷ 0xf4 ∷ 0xf0 ∷ 0x80
    ∷ 0x1f ∷ 0x02 ∷ 0x34 ∷ 0x7b ∷ 0xe7 ∷ 0xde ∷ 0xdb ∷ 0x45 ∷ 0x51 ∷ 0xb9 ∷ 0x2f ∷ 0xc7 ∷ 0xf8
    ∷ 0x7c ∷ 0x41 ∷ 0x28 ∷ 0x3a ∷ 0xa2 ∷ 0x87 ∷ 0xb3 ∷ 0xfb ∷ []

abbrev pub hash_table_1 : List ℕ
hash_table_1 =
    0x9f ∷ 0x8f ∷ 0xdf ∷ 0xb9 ∷ 0xd9 ∷ 0x1d ∷ 0x45 ∷ 0x44 ∷ 0xe1 ∷ 0x76 ∷ 0xb2 ∷ 0xdc ∷ 0x77 ∷ 0xe7
    ∷ 0x0f ∷ 0xc9 ∷ 0x72 ∷ 0xc3 ∷ 0x2a ∷ 0xb4 ∷ 0x06 ∷ 0x13 ∷ 0x3f ∷ 0x7e ∷ 0x8a ∷ 0x7b ∷ 0xe0
    ∷ 0xc8 ∷ 0x31 ∷ 0xdb ∷ 0x64 ∷ 0x0d ∷ 0x3c ∷ 0x80 ∷ 0x2e ∷ 0x5c ∷ 0xf5 ∷ 0xca ∷ 0x97 ∷ 0x5f
    ∷ 0x79 ∷ 0x49 ∷ 0xa6 ∷ 0xf0 ∷ 0xbd ∷ 0x61 ∷ 0x08 ∷ 0x75 ∷ 0x4e ∷ 0x99 ∷ 0x0e ∷ 0x2c ∷ 0xa5
    ∷ 0x5d ∷ 0x40 ∷ 0x55 ∷ 0xf4 ∷ 0xae ∷ 0x90 ∷ 0x05 ∷ 0x0a ∷ 0x33 ∷ 0xa7 ∷ 0x5e ∷ 0x57 ∷ 0xe6
    ∷ 0x9b ∷ 0xb5 ∷ 0x6c ∷ 0x6a ∷ 0x54 ∷ 0x8b ∷ 0xaf ∷ 0x69 ∷ 0xce ∷ 0x7a ∷ 0xcf ∷ 0xe3 ∷ 0x9c
    ∷ 0x7f ∷ 0x59 ∷ 0x9a ∷ 0x88 ∷ 0xc4 ∷ 0x98 ∷ 0xa8 ∷ 0x21 ∷ 0x37 ∷ 0xfa ∷ 0x03 ∷ 0x5a ∷ 0x82
    ∷ 0x26 ∷ 0xab ∷ 0x93 ∷ 0xb7 ∷ 0x1f ∷ 0x41 ∷ 0xff ∷ 0x78 ∷ 0xeb ∷ 0xd0 ∷ 0xa3 ∷ 0xbc ∷ 0xdd
    ∷ 0x73 ∷ 0xf8 ∷ 0xd3 ∷ 0xa0 ∷ 0xad ∷ 0xee ∷ 0x94 ∷ 0x0c ∷ 0x20 ∷ 0xc2 ∷ 0x6d ∷ 0x0b ∷ 0xb3
    ∷ 0x02 ∷ 0xc5 ∷ 0x34 ∷ 0x56 ∷ 0xf3 ∷ 0x6f ∷ 0x81 ∷ 0xe4 ∷ 0xba ∷ 0x3b ∷ 0xf2 ∷ 0x12 ∷ 0xcb
    ∷ 0x58 ∷ 0xd6 ∷ 0x1c ∷ 0xed ∷ 0x7d ∷ 0xbb ∷ 0x67 ∷ 0x8d ∷ 0x2b ∷ 0x1a ∷ 0x04 ∷ 0xac ∷ 0xfe
    ∷ 0x25 ∷ 0x51 ∷ 0x23 ∷ 0x46 ∷ 0x60 ∷ 0x27 ∷ 0xa9 ∷ 0x36 ∷ 0xa2 ∷ 0x63 ∷ 0x18 ∷ 0x39 ∷ 0xd2
    ∷ 0xb1 ∷ 0x7c ∷ 0x00 ∷ 0xc1 ∷ 0x71 ∷ 0x8e ∷ 0x62 ∷ 0x5b ∷ 0xde ∷ 0xb6 ∷ 0xb8 ∷ 0xf1 ∷ 0x9e
    ∷ 0x10 ∷ 0x84 ∷ 0x11 ∷ 0xf9 ∷ 0x17 ∷ 0xb0 ∷ 0xaa ∷ 0xc7 ∷ 0x15 ∷ 0xd7 ∷ 0x8c ∷ 0x3e ∷ 0x38
    ∷ 0x29 ∷ 0x24 ∷ 0x09 ∷ 0x70 ∷ 0x52 ∷ 0x65 ∷ 0x42 ∷ 0xd4 ∷ 0x48 ∷ 0x92 ∷ 0x1e ∷ 0xd1 ∷ 0xe5
    ∷ 0x4d ∷ 0x4c ∷ 0x4b ∷ 0xd5 ∷ 0x1b ∷ 0x74 ∷ 0x3a ∷ 0xbe ∷ 0x89 ∷ 0x95 ∷ 0x16 ∷ 0x01 ∷ 0x96
    ∷ 0x9d ∷ 0xef ∷ 0x28 ∷ 0x32 ∷ 0x50 ∷ 0x30 ∷ 0xf6 ∷ 0x47 ∷ 0x2f ∷ 0xe9 ∷ 0x4f ∷ 0x35 ∷ 0xc0
    ∷ 0x22 ∷ 0xec ∷ 0x43 ∷ 0x53 ∷ 0x14 ∷ 0x4a ∷ 0xa4 ∷ 0xe2 ∷ 0xea ∷ 0x83 ∷ 0x6e ∷ 0x07 ∷ 0x2d
    ∷ 0x87 ∷ 0x68 ∷ 0xda ∷ 0x86 ∷ 0xf7 ∷ 0xfc ∷ 0xe8 ∷ 0x66 ∷ 0xcc ∷ 0x91 ∷ 0x85 ∷ 0xcd ∷ 0x19
    ∷ 0x6b ∷ 0xfb ∷ 0xc6 ∷ 0xa1 ∷ 0xbf ∷ 0xd8 ∷ 0x3d ∷ 0xfd ∷ []

abbrev pub hash_table_2 : List ℕ
hash_table_2 =
    0x35 ∷ 0x85 ∷ 0x49 ∷ 0xe2 ∷ 0xa7 ∷ 0x42 ∷ 0xdf ∷ 0x0b ∷ 0x2d ∷ 0x23 ∷ 0xdd ∷ 0xde ∷ 0x1f ∷ 0x17
    ∷ 0xbb ∷ 0xcf ∷ 0x4e ∷ 0xa3 ∷ 0x19 ∷ 0x04 ∷ 0x71 ∷ 0x12 ∷ 0xb5 ∷ 0x50 ∷ 0x43 ∷ 0x64 ∷ 0xa0
    ∷ 0x15 ∷ 0xdb ∷ 0x22 ∷ 0xb0 ∷ 0x83 ∷ 0x39 ∷ 0xea ∷ 0xaf ∷ 0xc3 ∷ 0xd0 ∷ 0xce ∷ 0x77 ∷ 0x14
    ∷ 0xad ∷ 0x56 ∷ 0x80 ∷ 0x5f ∷ 0x6e ∷ 0xd2 ∷ 0xd9 ∷ 0xc0 ∷ 0xe6 ∷ 0xf6 ∷ 0x70 ∷ 0xf9 ∷ 0x05
    ∷ 0x5a ∷ 0x33 ∷ 0xc5 ∷ 0x8c ∷ 0x73 ∷ 0xcb ∷ 0xfa ∷ 0x81 ∷ 0x3e ∷ 0xd8 ∷ 0x9e ∷ 0x26 ∷ 0xd6
    ∷ 0x0c ∷ 0xba ∷ 0xaa ∷ 0xcd ∷ 0x7e ∷ 0x9d ∷ 0xff ∷ 0x1d ∷ 0x06 ∷ 0xc4 ∷ 0xed ∷ 0xf2 ∷ 0xf4
    ∷ 0x5b ∷ 0x94 ∷ 0x9b ∷ 0xa1 ∷ 0x5e ∷ 0xb8 ∷ 0x37 ∷ 0xc1 ∷ 0xf1 ∷ 0x57 ∷ 0x7b ∷ 0xd7 ∷ 0xfb
    ∷ 0x25 ∷ 0xcc ∷ 0x91 ∷ 0xf0 ∷ 0x62 ∷ 0x7f ∷ 0xfc ∷ 0x1a ∷ 0x96 ∷ 0x72 ∷ 0x2f ∷ 0xda ∷ 0x38
    ∷ 0xa2 ∷ 0x3a ∷ 0xbf ∷ 0xb4 ∷ 0xb1 ∷ 0xe8 ∷ 0xbd ∷ 0x0f ∷ 0xf7 ∷ 0xae ∷ 0xa6 ∷ 0x88 ∷ 0x74
    ∷ 0x2c ∷ 0x7d ∷ 0x01 ∷ 0xec ∷ 0x07 ∷ 0x24 ∷ 0x40 ∷ 0x34 ∷ 0x5d ∷ 0x59 ∷ 0x9c ∷ 0x7a ∷ 0x9a
    ∷ 0xee ∷ 0xe7 ∷ 0x46 ∷ 0x9f ∷ 0x61 ∷ 0x63 ∷ 0x30 ∷ 0xb2 ∷ 0x97 ∷ 0xef ∷ 0xac ∷ 0x76 ∷ 0x8e
    ∷ 0x75 ∷ 0xe4 ∷ 0xd3 ∷ 0xa9 ∷ 0x2a ∷ 0x41 ∷ 0x00 ∷ 0xa5 ∷ 0xbc ∷ 0x66 ∷ 0x51 ∷ 0xca ∷ 0x1b
    ∷ 0xb7 ∷ 0x7c ∷ 0x0e ∷ 0x18 ∷ 0x6b ∷ 0xc7 ∷ 0x78 ∷ 0x84 ∷ 0x6a ∷ 0x6c ∷ 0x82 ∷ 0x60 ∷ 0xd5
    ∷ 0x1c ∷ 0x13 ∷ 0x55 ∷ 0x52 ∷ 0xb9 ∷ 0x53 ∷ 0x32 ∷ 0x1e ∷ 0xb6 ∷ 0x28 ∷ 0x4b ∷ 0x8f ∷ 0x11
    ∷ 0x8d ∷ 0x8b ∷ 0xfd ∷ 0x10 ∷ 0x67 ∷ 0x3f ∷ 0xd1 ∷ 0x36 ∷ 0x45 ∷ 0x86 ∷ 0xc9 ∷ 0x4a ∷ 0x54
    ∷ 0x4f ∷ 0xf8 ∷ 0x79 ∷ 0x29 ∷ 0x69 ∷ 0x08 ∷ 0xe9 ∷ 0x89 ∷ 0x20 ∷ 0xab ∷ 0x6d ∷ 0xe3 ∷ 0xc6
    ∷ 0x98 ∷ 0x99 ∷ 0xe5 ∷ 0x93 ∷ 0x48 ∷ 0x09 ∷ 0xe1 ∷ 0xf3 ∷ 0x47 ∷ 0x4c ∷ 0xfe ∷ 0x8a ∷ 0x95
    ∷ 0x3c ∷ 0xeb ∷ 0x2b ∷ 0x03 ∷ 0xf5 ∷ 0xa8 ∷ 0x58 ∷ 0x3d ∷ 0xc2 ∷ 0x31 ∷ 0x65 ∷ 0xdc ∷ 0x27
    ∷ 0xbe ∷ 0x21 ∷ 0x68 ∷ 0xe0 ∷ 0xb3 ∷ 0xc8 ∷ 0xa4 ∷ 0x02 ∷ 0x2e ∷ 0xd4 ∷ 0x3b ∷ 0x6f ∷ 0x5c
    ∷ 0x87 ∷ 0x0a ∷ 0x92 ∷ 0x0d ∷ 0x4d ∷ 0x16 ∷ 0x44 ∷ 0x90 ∷ []

abbrev pub hash_table_3 : List ℕ
hash_table_3 =
    0x5f ∷ 0xd5 ∷ 0xb8 ∷ 0xf3 ∷ 0x68 ∷ 0x63 ∷ 0xb3 ∷ 0xe6 ∷ 0xce ∷ 0x33 ∷ 0x02 ∷ 0x6a ∷ 0x99 ∷ 0xd0
    ∷ 0x12 ∷ 0xa7 ∷ 0x2f ∷ 0x0e ∷ 0xad ∷ 0xf7 ∷ 0xa2 ∷ 0x0c ∷ 0x60 ∷ 0xab ∷ 0x4e ∷ 0x75 ∷ 0xd7
    ∷ 0x6f ∷ 0x26 ∷ 0xd8 ∷ 0x1a ∷ 0xb5 ∷ 0x30 ∷ 0xa6 ∷ 0xeb ∷ 0x11 ∷ 0x2e ∷ 0x61 ∷ 0x9f ∷ 0x7a
    ∷ 0xa3 ∷ 0x8e ∷ 0xa0 ∷ 0xdf ∷ 0x43 ∷ 0xb7 ∷ 0x8d ∷ 0xca ∷ 0x4a ∷ 0x5a ∷ 0x98 ∷ 0xf1 ∷ 0x66
    ∷ 0x38 ∷ 0x1c ∷ 0xd1 ∷ 0x5d ∷ 0xf0 ∷ 0xcf ∷ 0xb1 ∷ 0x74 ∷ 0xcd ∷ 0x9d ∷ 0xb9 ∷ 0x3e ∷ 0x8c
    ∷ 0xe7 ∷ 0x31 ∷ 0xec ∷ 0x7f ∷ 0x0f ∷ 0x2c ∷ 0x7c ∷ 0x71 ∷ 0x6d ∷ 0x8b ∷ 0xfe ∷ 0xc3 ∷ 0x23
    ∷ 0xc0 ∷ 0xb4 ∷ 0xc6 ∷ 0x7d ∷ 0xc9 ∷ 0xbd ∷ 0x3d ∷ 0x04 ∷ 0xf2 ∷ 0x5e ∷ 0x03 ∷ 0xe8 ∷ 0xd2
    ∷ 0xdd ∷ 0x53 ∷ 0xfb ∷ 0x64 ∷ 0xdc ∷ 0xd4 ∷ 0x90 ∷ 0xda ∷ 0x08 ∷ 0x51 ∷ 0x78 ∷ 0xbc ∷ 0xe4
    ∷ 0xc1 ∷ 0xa1 ∷ 0x29 ∷ 0x36 ∷ 0xcc ∷ 0x1b ∷ 0x87 ∷ 0x95 ∷ 0x8f ∷ 0xe9 ∷ 0x97 ∷ 0xd9 ∷ 0x80
    ∷ 0x6e ∷ 0xf4 ∷ 0x94 ∷ 0xdb ∷ 0x10 ∷ 0xe2 ∷ 0xae ∷ 0xbb ∷ 0x93 ∷ 0xd3 ∷ 0x57 ∷ 0x5b ∷ 0x2d
    ∷ 0x0b ∷ 0x01 ∷ 0x7b ∷ 0xf6 ∷ 0x40 ∷ 0x1e ∷ 0x09 ∷ 0x9b ∷ 0x67 ∷ 0x83 ∷ 0x96 ∷ 0xb2 ∷ 0xfc
    ∷ 0x46 ∷ 0x89 ∷ 0xb6 ∷ 0x9c ∷ 0xc4 ∷ 0x69 ∷ 0x70 ∷ 0x54 ∷ 0x24 ∷ 0x05 ∷ 0x28 ∷ 0xde ∷ 0x17
    ∷ 0xee ∷ 0xa8 ∷ 0xe5 ∷ 0x77 ∷ 0x48 ∷ 0x16 ∷ 0x0d ∷ 0x06 ∷ 0x18 ∷ 0x42 ∷ 0x5c ∷ 0x1d ∷ 0xfd
    ∷ 0xc5 ∷ 0x50 ∷ 0xaa ∷ 0x4d ∷ 0xea ∷ 0x21 ∷ 0x59 ∷ 0x9e ∷ 0xf8 ∷ 0x73 ∷ 0x14 ∷ 0x82 ∷ 0x32
    ∷ 0x3c ∷ 0xef ∷ 0xe3 ∷ 0x15 ∷ 0x8a ∷ 0x07 ∷ 0x41 ∷ 0x56 ∷ 0xc8 ∷ 0x79 ∷ 0x22 ∷ 0x45 ∷ 0x92
    ∷ 0xa5 ∷ 0x1f ∷ 0xc7 ∷ 0x2a ∷ 0x85 ∷ 0x19 ∷ 0xbe ∷ 0xe0 ∷ 0x7e ∷ 0x25 ∷ 0xbf ∷ 0x9a ∷ 0x0a
    ∷ 0x47 ∷ 0x84 ∷ 0xed ∷ 0xb0 ∷ 0x81 ∷ 0x72 ∷ 0x6b ∷ 0x52 ∷ 0xd6 ∷ 0xff ∷ 0x44 ∷ 0x3f ∷ 0xa9
    ∷ 0xf9 ∷ 0xc2 ∷ 0x37 ∷ 0x20 ∷ 0xaf ∷ 0x3a ∷ 0xcb ∷ 0x62 ∷ 0x88 ∷ 0x86 ∷ 0x4b ∷ 0x76 ∷ 0x2b
    ∷ 0x91 ∷ 0x58 ∷ 0xa4 ∷ 0xfa ∷ 0xf5 ∷ 0x55 ∷ 0x49 ∷ 0x4f ∷ 0xba ∷ 0xe1 ∷ 0x39 ∷ 0x4c ∷ 0x13
    ∷ 0x65 ∷ 0x3b ∷ 0x34 ∷ 0x6c ∷ 0x00 ∷ 0x35 ∷ 0xac ∷ 0x27 ∷ []
