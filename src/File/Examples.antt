-- ===== src/File/Examples.antt =====
-- Tests of the classification of files, and its theorems at a concrete file.
use commlib.Base.{◌≡◌, ◌++◌, refl, some, false, ◌∷◌, replicate}
use commlib.File.{
  FileStat, FileView, file_is, reg, magic, file_execute_type, elf_exc, elf_type, header_type,
  judge_file_type, has_prefix, e_type,
}
use commlib.File.Laws.{
  IsOpened, kind_of_exec, kind_of_elf, file_is-false, file_execute_type-elf_type,
}

abbrev plain_stat : FileStat
plain_stat = record { mode = 0o100755; size = 52 }

abbrev program : FileView
program = record {
  stat = some plain_stat;
  fd = some 3;
  content = some (magic ++ (replicate 12 0 ++ (2 ∷ replicate 40 0)));
}

program_type : file_execute_type program ≡ elf_exc
unfolding file_execute_type file_is judge_file_type header_type has_prefix e_type
program_type = refl

file_is-false_example : file_is reg program ≡ false
file_is-false_example = file_is-false reg program

program-IsOpened : IsOpened program plain_stat 3
program-IsOpened = record { stats = refl; sized = refl; opens = refl; positive = refl }

file_execute_type-elf_type_example :
    kind_of_exec (file_execute_type program) ≡ kind_of_elf (elf_type program.fd program.content)
file_execute_type-elf_type_example =
    file_execute_type-elf_type program plain_stat 3 program-IsOpened
