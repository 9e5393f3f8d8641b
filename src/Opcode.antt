-- ===== src/Opcode.antt =====
-- The opcode table of src/shared/zbc_opcode_table.c and its lookup.
pub mod Agreement
use semihost.Base.{
  ℕ, ◌+◌, Bool, true, false, ◌==◌, ◌&&◌, Option, none, some, List, [], ◌∷◌, ◌++◌, if◌then◌else◌,
}

-- ZBC_CHUNK_: what a request chunk is made from; `other` is a value that no entry has.
pub data ChunkType : Type 0 where
  unused parm_int parm_uint data_ptr data_str data_byte other : ChunkType

-- ZBC_RESP_
pub data RespType : Type 0 where
  int data_bytes heapinfo elapsed : RespType

-- zbc_chunk_desc_t
pub record ChunkDesc : Type 0 where
  pub type : ChunkType
  pub slot : ℕ
  pub len_slot : ℕ

-- zbc_opcode_entry_t
pub record OpcodeEntry : Type 0 where
  pub opcode : ℕ
  pub arg_count : ℕ
  pub params : List ChunkDesc
  pub resp_type : RespType
  pub resp_dest : ℕ
  pub resp_len_slot : ℕ

abbrev desc : ChunkType → ℕ → ℕ → ChunkDesc
desc t s l = record { type = t; slot = s; len_slot = l }

abbrev no_desc : ChunkDesc
no_desc = desc unused 0 0

abbrev row : ℕ → ℕ → List ChunkDesc → RespType → ℕ → ℕ → OpcodeEntry
row op n ps r d l = record {
  opcode = op;
  arg_count = n;
  params = ps;
  resp_type = r;
  resp_dest = d;
  resp_len_slot = l;
}

-- The SH_SYS_ opcodes
abbrev pub sys_open : ℕ
sys_open = 0x01

abbrev pub sys_close : ℕ
sys_close = 0x02

abbrev pub sys_writec : ℕ
sys_writec = 0x03

abbrev pub sys_write0 : ℕ
sys_write0 = 0x04

abbrev pub sys_write : ℕ
sys_write = 0x05

abbrev pub sys_read : ℕ
sys_read = 0x06

abbrev pub sys_readc : ℕ
sys_readc = 0x07

abbrev pub sys_iserror : ℕ
sys_iserror = 0x08

abbrev pub sys_istty : ℕ
sys_istty = 0x09

abbrev pub sys_seek : ℕ
sys_seek = 0x0a

abbrev pub sys_flen : ℕ
sys_flen = 0x0c

abbrev pub sys_tmpnam : ℕ
sys_tmpnam = 0x0d

abbrev pub sys_remove : ℕ
sys_remove = 0x0e

abbrev pub sys_rename : ℕ
sys_rename = 0x0f

abbrev pub sys_clock : ℕ
sys_clock = 0x10

abbrev pub sys_time : ℕ
sys_time = 0x11

abbrev pub sys_system : ℕ
sys_system = 0x12

abbrev pub sys_errno : ℕ
sys_errno = 0x13

abbrev pub sys_get_cmdline : ℕ
sys_get_cmdline = 0x15

abbrev pub sys_heapinfo : ℕ
sys_heapinfo = 0x16

abbrev pub sys_exit : ℕ
sys_exit = 0x18

abbrev pub sys_exit_extended : ℕ
sys_exit_extended = 0x20

abbrev pub sys_elapsed : ℕ
sys_elapsed = 0x30

abbrev pub sys_tickfreq : ℕ
sys_tickfreq = 0x31

abbrev pub sys_timer_config : ℕ
sys_timer_config = 0x32

abbrev pub sys_opendir : ℕ
sys_opendir = 0x80

abbrev pub sys_readdir : ℕ
sys_readdir = 0x81

abbrev pub sys_closedir : ℕ
sys_closedir = 0x82

abbrev pub sys_stat : ℕ
sys_stat = 0x83

abbrev pub sys_fstat : ℕ
sys_fstat = 0x84

abbrev pub sys_mkdir : ℕ
sys_mkdir = 0x85

abbrev pub sys_rmdir : ℕ
sys_rmdir = 0x86

abbrev pub sys_ftruncate : ℕ
sys_ftruncate = 0x87

abbrev pub sys_fsync : ℕ
sys_fsync = 0x88

abbrev pub sys_readc_poll : ℕ
sys_readc_poll = 0x89

abbrev pub sys_link : ℕ
sys_link = 0x8a

abbrev pub sys_symlink : ℕ
sys_symlink = 0x8b

abbrev pub sys_readlink : ℕ
sys_readlink = 0x8c

abbrev pub sys_lstat : ℕ
sys_lstat = 0x8d

-- sys_open to sys_readc
unfoldable pub basic_rows : List OpcodeEntry
basic_rows =
    row sys_open 3 (desc data_ptr 0 2 ∷ desc parm_int 1 0 ∷ desc parm_uint 2 0 ∷ no_desc ∷ []) int 0
      0
    ∷ row sys_close 1 (desc parm_int 0 0 ∷ no_desc ∷ no_desc ∷ no_desc ∷ []) int 0 0
    ∷ row sys_writec 1 (desc data_byte 0 0 ∷ no_desc ∷ no_desc ∷ no_desc ∷ []) int 0 0
    ∷ row sys_write0 1 (desc data_str 0 0 ∷ no_desc ∷ no_desc ∷ no_desc ∷ []) int 0 0
    ∷ row sys_write 3 (desc parm_int 0 0 ∷ desc data_ptr 1 2 ∷ desc parm_uint 2 0 ∷ no_desc ∷ [])
        int 0 0
    ∷ row sys_read 3 (desc parm_int 0 0 ∷ desc parm_uint 2 0 ∷ no_desc ∷ no_desc ∷ []) data_bytes 1
        2
    ∷ row sys_readc 0 (no_desc ∷ no_desc ∷ no_desc ∷ no_desc ∷ []) int 0 0
    ∷ []

-- sys_iserror to sys_rename
unfoldable pub status_rows : List OpcodeEntry
status_rows =
    row sys_iserror 1 (desc parm_int 0 0 ∷ no_desc ∷ no_desc ∷ no_desc ∷ []) int 0 0
    ∷ row sys_istty 1 (desc parm_int 0 0 ∷ no_desc ∷ no_desc ∷ no_desc ∷ []) int 0 0
    ∷ row sys_seek 2 (desc parm_int 0 0 ∷ desc parm_uint 1 0 ∷ no_desc ∷ no_desc ∷ []) int 0 0
    ∷ row sys_flen 1 (desc parm_int 0 0 ∷ no_desc ∷ no_desc ∷ no_desc ∷ []) int 0 0
    ∷ row sys_tmpnam 3 (desc parm_int 1 0 ∷ desc parm_int 2 0 ∷ no_desc ∷ no_desc ∷ []) data_bytes 0
        2
    ∷ row sys_remove 2 (desc data_ptr 0 1 ∷ desc parm_uint 1 0 ∷ no_desc ∷ no_desc ∷ []) int 0 0
    ∷ row sys_rename 4
        (desc data_ptr 0 1 ∷ desc parm_uint 1 0 ∷ desc data_ptr 2 3 ∷ desc parm_uint 3 0 ∷ []) int 0
        0
    ∷ []

-- sys_clock to sys_timer_config
unfoldable pub system_rows : List OpcodeEntry
system_rows =
    row sys_clock 0 (no_desc ∷ no_desc ∷ no_desc ∷ no_desc ∷ []) int 0 0
    ∷ row sys_time 0 (no_desc ∷ no_desc ∷ no_desc ∷ no_desc ∷ []) int 0 0
    ∷ row sys_system 2 (desc data_ptr 0 1 ∷ desc parm_uint 1 0 ∷ no_desc ∷ no_desc ∷ []) int 0 0
    ∷ row sys_errno 0 (no_desc ∷ no_desc ∷ no_desc ∷ no_desc ∷ []) int 0 0
    ∷ row sys_get_cmdline 2 (desc parm_int 1 0 ∷ no_desc ∷ no_desc ∷ no_desc ∷ []) data_bytes 0 1
    ∷ row sys_heapinfo 1 (no_desc ∷ no_desc ∷ no_desc ∷ no_desc ∷ []) heapinfo 0 0
    ∷ row sys_exit 2 (desc parm_uint 0 0 ∷ desc parm_uint 1 0 ∷ no_desc ∷ no_desc ∷ []) int 0 0
    ∷ row sys_exit_extended 2 (desc parm_uint 0 0 ∷ desc parm_uint 1 0 ∷ no_desc ∷ no_desc ∷ []) int
        0 0
    ∷ row sys_elapsed 1 (no_desc ∷ no_desc ∷ no_desc ∷ no_desc ∷ []) elapsed 0 0
    ∷ row sys_tickfreq 0 (no_desc ∷ no_desc ∷ no_desc ∷ no_desc ∷ []) int 0 0
    ∷ row sys_timer_config 1 (desc parm_uint 0 0 ∷ no_desc ∷ no_desc ∷ no_desc ∷ []) int 0 0
    ∷ []

-- sys_opendir to sys_mkdir
unfoldable pub directory_rows : List OpcodeEntry
directory_rows =
    row sys_opendir 2 (desc data_ptr 0 1 ∷ desc parm_uint 1 0 ∷ no_desc ∷ no_desc ∷ []) int 0 0
    ∷ row sys_readdir 3 (desc parm_int 0 0 ∷ desc parm_uint 2 0 ∷ no_desc ∷ no_desc ∷ []) data_bytes
        1 2
    ∷ row sys_closedir 1 (desc parm_int 0 0 ∷ no_desc ∷ no_desc ∷ no_desc ∷ []) int 0 0
    ∷ row sys_stat 4 (desc data_ptr 0 1 ∷ desc parm_uint 1 0 ∷ no_desc ∷ no_desc ∷ []) data_bytes 2
        3
    ∷ row sys_fstat 3 (desc parm_int 0 0 ∷ no_desc ∷ no_desc ∷ no_desc ∷ []) data_bytes 1 2
    ∷ row sys_mkdir 3 (desc data_ptr 0 1 ∷ desc parm_uint 1 0 ∷ desc parm_uint 2 0 ∷ no_desc ∷ [])
        int 0 0
    ∷ []

-- sys_rmdir to sys_lstat
unfoldable pub file_rows : List OpcodeEntry
file_rows =
    row sys_rmdir 2 (desc data_ptr 0 1 ∷ desc parm_uint 1 0 ∷ no_desc ∷ no_desc ∷ []) int 0 0
    ∷ row sys_ftruncate 3 (desc parm_int 0 0 ∷ desc data_ptr 1 2 ∷ no_desc ∷ no_desc ∷ []) int 0 0
    ∷ row sys_fsync 1 (desc parm_int 0 0 ∷ no_desc ∷ no_desc ∷ no_desc ∷ []) int 0 0
    ∷ row sys_readc_poll 0 (no_desc ∷ no_desc ∷ no_desc ∷ no_desc ∷ []) int 0 0
    ∷ row sys_link 4
        (desc data_ptr 0 1 ∷ desc parm_uint 1 0 ∷ desc data_ptr 2 3 ∷ desc parm_uint 3 0 ∷ []) int 0
        0
    ∷ row sys_symlink 4
        (desc data_ptr 0 1 ∷ desc parm_uint 1 0 ∷ desc data_ptr 2 3 ∷ desc parm_uint 3 0 ∷ []) int 0
        0
    ∷ row sys_readlink 4
        (desc data_ptr 0 1 ∷ desc parm_uint 1 0 ∷ desc parm_uint 3 0 ∷ no_desc ∷ []) data_bytes 2 3
    ∷ row sys_lstat 4 (desc data_ptr 0 1 ∷ desc parm_uint 1 0 ∷ no_desc ∷ no_desc ∷ []) data_bytes 2
        3
    ∷ []

-- zbc_opcode_table, without its end marker
unfoldable pub opcode_table : List OpcodeEntry
unfolding basic_rows status_rows system_rows directory_rows file_rows
opcode_table = basic_rows ++ (status_rows ++ (system_rows ++ (directory_rows ++ file_rows)))

-- The loop of zbc_opcode_lookup
unfoldable pub lookup_from : List OpcodeEntry → ℕ → Option OpcodeEntry
lookup_from [] opcode = none
lookup_from (p ∷ ps) opcode = if p.opcode == opcode then some p else lookup_from ps opcode

-- zbc_opcode_lookup
unfoldable pub opcode_lookup : ℕ → Option OpcodeEntry
unfolding opcode_table lookup_from
opcode_lookup opcode = lookup_from opcode_table opcode

-- The loop of zbc_opcode_count
unfoldable pub count_from : List OpcodeEntry → ℕ
count_from [] = 0
count_from (p ∷ ps) = 1 + count_from ps

-- zbc_opcode_count
unfoldable pub opcode_count : ℕ
unfolding opcode_table count_from
opcode_count = count_from opcode_table
