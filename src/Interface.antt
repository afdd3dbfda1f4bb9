-- ===== src/Interface.antt =====
-- The functions that a program sees and that pass their arguments on: src/myfcp/fcp_string.c,
-- fcp_mm.c, fcp_set_log_cb of fcp_base.c, the two iterators of fcp_file.c and com_find_proc_pid of
-- fcp_proc.c.
use commlib.Base.{ℕ, Bool, Option, List}
use commlib.Alloc.{Block, Pointer, Allocator, mm_realloc, mm_recalloc}
use commlib.Checksum.{FileMd5, gen_file_md5, gen_string_md5}
use commlib.Directory.{
  Dirent, Memory, Item, Step, foreach_dir_entry, foreach_regfile_entry, find_proc_pid,
}
use commlib.Log.{Table, set_cb}
use commlib.Text.Base64.{encode, Decoded, decode}
use commlib.Text.Fields.{Entry, Mallocs, Outcome, foreach_field}
use commlib.Text.PathName.{path_last_component}
use commlib.Text.Trim.{left_strim, right_strim, strim}

abbrev pub fcp_left_strim : List ℕ → List ℕ
fcp_left_strim str = left_strim str

abbrev pub fcp_right_strim : List ℕ → List ℕ
fcp_right_strim str = right_strim str

abbrev pub fcp_strim : List ℕ → List ℕ
fcp_strim str = strim str

abbrev pub fcp_foreach_field : Mallocs → Option (List ℕ) → ℕ → Option Entry → Outcome
fcp_foreach_field mallocs buff keys entry = foreach_field mallocs buff keys entry

abbrev pub fcp_base64_decode : List ℕ → Option Decoded
fcp_base64_decode str = decode str

abbrev pub fcp_base64_encode : ℕ → List ℕ → Option (List ℕ)
fcp_base64_encode beyond str = encode beyond str

abbrev pub fcp_file_md5 : List ℕ → Option ℕ → List (Option (List ℕ)) → FileMd5
fcp_file_md5 buffer fd reads = gen_file_md5 buffer fd reads

abbrev pub fcp_string_md5 : List ℕ → List ℕ → List ℕ
fcp_string_md5 buffer str = gen_string_md5 buffer str

abbrev pub strutils_path_last_component : Option (List ℕ) → Option (List ℕ)
strutils_path_last_component filepath = path_last_component filepath

abbrev pub mmutil_realloc : Allocator → Block → ℕ → Pointer × Bool
mmutil_realloc a ptr size = mm_realloc a ptr size

abbrev pub mmutil_recalloc : Allocator → Block → ℕ → ℕ → Pointer × Bool
mmutil_recalloc a ptr oldsize size = mm_recalloc a ptr oldsize size

abbrev pub fcp_set_log_cb : Option ℕ → Option ℕ → Table → Table
fcp_set_log_cb errcb debugcb table = set_cb errcb debugcb table

abbrev pub comm_foreach_dir_entry : Memory → List ℕ → Option (List Dirent) → Item → Step
comm_foreach_dir_entry mem path dir entry = foreach_dir_entry mem path dir entry

abbrev pub comm_foreach_regfile_entry : Memory → List ℕ → Option (List Dirent) → Item → Step
comm_foreach_regfile_entry mem path dir entry = foreach_regfile_entry mem path dir entry

abbrev pub com_find_proc_pid {ℓ} :
    {U : Type ℓ} → Memory → Option (List Dirent) → (List ℕ → U → U × Bool) → ℕ → U → Option U
com_find_proc_pid mem dir callback fuel userarg = find_proc_pid mem dir callback fuel userarg
