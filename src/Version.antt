-- ===== src/Version.antt =====
-- src/include/version.h: the counters that the store's parts share, in 64 bits.
use lsmkv.Base.{ℕ, ◌+◌, ◌%◌, ◌^◌, ltb, ◌==◌, if◌then◌else◌, Option, none, some}

pub record Version : Type 0 where
  pub fileno : ℕ
  pub max_level : ℕ
  pub last_sequence : ℕ
  pub last_live_sequence : ℕ
  pub last_vlog_file_no : ℕ

unfoldable pub new_version : Version
new_version = record {
  fileno = 0;
  max_level = 7;
  last_sequence = 0;
  last_live_sequence = 0;
  last_vlog_file_no = 0;
}

-- `reset` leaves the oldest living sequence number as it is.
unfoldable pub reset : Version → Version
reset v = record v { fileno = 0; last_vlog_file_no = 0; max_level = 7; last_sequence = 0 }

-- `fetch_add(1)`: the number handed out, and the version behind it.
unfoldable pub new_vlog_file_number : Version → ℕ × Version
new_vlog_file_number v =
    (v.last_vlog_file_no, record v { last_vlog_file_no = (v.last_vlog_file_no + 1) % 2 ^ 64 })

unfoldable pub reuse_vlog_file_number : ℕ → Version → Version
reuse_vlog_file_number file_no v =
    if (file_no + 1) % 2 ^ 64 == v.last_vlog_file_no
    then record v { last_vlog_file_no = file_no }
    else v

-- Nothing calls this one, nor `set_vlog_file_number`.
unfoldable pub reuse_sst_file_number : ℕ → Version → Version
reuse_sst_file_number file_no v =
    if (v.fileno + 1) % 2 ^ 64 == file_no then record v { fileno = file_no } else v

unfoldable pub set_vlog_file_number : ℕ → Version → Version
set_vlog_file_number file_no v = record v { last_vlog_file_no = file_no }

unfoldable pub set_sst_file_number : ℕ → Version → Version
set_sst_file_number file_no v = record v { fileno = file_no }

-- `none` is the failed assertion that the number grows.
unfoldable pub set_last_sequence : ℕ → Version → Option Version
set_last_sequence seq v =
    if ltb v.last_sequence seq then some (record v { last_sequence = seq }) else none

unfoldable pub set_last_living_sequence : ℕ → Version → Version
set_last_living_sequence seq v = record v { last_live_sequence = seq }
