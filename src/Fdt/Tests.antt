-- ===== src/Fdt/Tests.antt =====
-- The edit of a small tree whose root holds one /memory node, and of a blob that is none.
use arm64emu_system.Base.{ℕ, zero, suc, ◌≡◌, refl, arith, List, [], ◌∷◌, ◌++◌}
use arm64emu_system.Fdt.{
  Result, done, wild, failed, Blob, be32, put_be64, strnlen, has_prefix, prop_name, names_memory,
  begin_node, leave, end_node, candidate_prop, prop, token, walk, fdt_set_memory,
}
use arm64emu_system.Fdt.Edit.{IsEdit, fdt_set_memory-IsEdit, big_endian}

abbrev nth : List ℕ → ℕ → ℕ
nth [] i = 0
nth (x ∷ xs) zero = x
nth (x ∷ xs) (suc i) = nth xs i

abbrev word : ℕ → List ℕ
word n = 0 ∷ 0 ∷ 0 ∷ n ∷ []

abbrev text : List ℕ
text = 109 ∷ 101 ∷ 109 ∷ 111 ∷ 114 ∷ 121 ∷ 0 ∷ 0 ∷ []

-- The strings "reg" and "device_type" at 0 and 4.
abbrev strings : List ℕ
strings =
    114 ∷ 101 ∷ 103 ∷ 0 ∷ 100 ∷ 101 ∷ 118 ∷ 105 ∷ 99 ∷ 101 ∷ 95 ∷ 116 ∷ 121 ∷ 112 ∷ 101 ∷ 0 ∷ []

-- Root, memory, its type, its `reg`, and the ends.
abbrev structure : List ℕ
structure =
    word 1
    ++ (word 0
        ++ (word 1
            ++ (text
                ++ (word 3
                    ++ (word 7
                        ++ (word 4
                            ++ (text
                                ++ (word 3
                                    ++ (word 16
                                        ++ (word 0
                                            ++ (word 0
                                                ++ (word 0
                                                    ++ (word 0
                                                        ++ (word 0
                                                            ++ (word 2
                                                            ++ (word 2 ++ word 9))))))))))))))))

abbrev header : List ℕ
header =
    0xd0 ∷ 0x0d ∷ 0xfe ∷ 0xed ∷ []
    ++ (word 136
        ++ (word 40
            ++ (word 120 ++ (word 0 ++ (word 0 ++ (word 0 ++ (word 0 ++ (word 16 ++ word 80))))))))

abbrev tree : Blob
tree = record { cells = nth (header ++ (structure ++ strings)); len = 136 }

fdt_set_memory-IsEdit_example :
    IsEdit tree 0x4000_0000 0x2000_0000 (fdt_set_memory tree 0x4000_0000 0x2000_0000)
fdt_set_memory-IsEdit_example =
    fdt_set_memory-IsEdit tree 0x4000_0000 0x2000_0000 (omega arith) (omega arith)

abbrev sizes : Result Blob → ℕ
sizes (done f) = big_endian f.cells 100 8
sizes wild = 1
sizes failed = 2

patched : sizes (fdt_set_memory tree 0x4000_0000 0x2000_0000) ≡ 0x2000_0000
unfolding fdt_set_memory walk token be32 put_be64 strnlen has_prefix prop_name names_memory
    begin_node leave end_node candidate_prop prop big_endian
patched = refl
