-- ===== src/P9/Wire.antt =====
-- The numbers of include/shared/zbc_9p_wire.h, and those of src/c/zbc_transport_9p.c and
-- include/c/zbc_9p.h. A 9P message type keeps its name.
use semihost.Base.{ℕ, ◌+◌, List, [], ◌∷◌, bit_or}
use semihost.Memory.{Bytes}

abbrev pub rlerror : ℕ
rlerror = 7

abbrev pub tlopen : ℕ
tlopen = 12

abbrev pub rlopen : ℕ
rlopen = 13

abbrev pub tlcreate : ℕ
tlcreate = 14

abbrev pub rlcreate : ℕ
rlcreate = 15

abbrev pub tsymlink : ℕ
tsymlink = 16

abbrev pub rsymlink : ℕ
rsymlink = 17

abbrev pub treadlink : ℕ
treadlink = 22

abbrev pub rreadlink : ℕ
rreadlink = 23

abbrev pub tgetattr : ℕ
tgetattr = 24

abbrev pub rgetattr : ℕ
rgetattr = 25

abbrev pub tsetattr : ℕ
tsetattr = 26

abbrev pub rsetattr : ℕ
rsetattr = 27

abbrev pub treaddir : ℕ
treaddir = 40

abbrev pub rreaddir : ℕ
rreaddir = 41

abbrev pub tfsync : ℕ
tfsync = 50

abbrev pub rfsync : ℕ
rfsync = 51

abbrev pub tlink : ℕ
tlink = 70

abbrev pub rlink : ℕ
rlink = 71

abbrev pub tmkdir : ℕ
tmkdir = 72

abbrev pub rmkdir : ℕ
rmkdir = 73

abbrev pub trenameat : ℕ
trenameat = 74

abbrev pub rrenameat : ℕ
rrenameat = 75

abbrev pub tversion : ℕ
tversion = 100

abbrev pub rversion : ℕ
rversion = 101

abbrev pub tattach : ℕ
tattach = 104

abbrev pub rattach : ℕ
rattach = 105

abbrev pub twalk : ℕ
twalk = 110

abbrev pub rwalk : ℕ
rwalk = 111

abbrev pub tread : ℕ
tread = 116

abbrev pub rread : ℕ
rread = 117

abbrev pub twrite : ℕ
twrite = 118

abbrev pub rwrite : ℕ
rwrite = 119

abbrev pub tclunk : ℕ
tclunk = 120

abbrev pub rclunk : ℕ
rclunk = 121

abbrev pub tremove : ℕ
tremove = 122

abbrev pub rremove : ℕ
rremove = 123

abbrev pub notag : ℕ
notag = 0xffff

abbrev pub nofid : ℕ
nofid = 0xffffffff

abbrev pub max_walk : ℕ
max_walk = 16

abbrev pub hdr_size : ℕ
hdr_size = 7

abbrev pub getattr_size : ℕ
getattr_size = 0x200

abbrev pub getattr_basic : ℕ
getattr_basic = 0x7ff

abbrev pub setattr_size : ℕ
setattr_size = 0x8

abbrev pub rgetattr_size_offset : ℕ
rgetattr_size_offset = 49

abbrev pub o_rdonly : ℕ
o_rdonly = 0

abbrev pub o_wronly : ℕ
o_wronly = 0x1

abbrev pub o_rdwr : ℕ
o_rdwr = 0x2

abbrev pub o_creat : ℕ
o_creat = 0x40

abbrev pub o_trunc : ℕ
o_trunc = 0x200

abbrev pub o_append : ℕ
o_append = 0x400

abbrev pub max_files : ℕ
max_files = 8

abbrev pub max_dirs : ℕ
max_dirs = 4

abbrev pub msgbuf_min : ℕ
msgbuf_min = 256

abbrev pub first_dir_handle : ℕ
first_dir_handle = 256

abbrev pub fid_root : ℕ
fid_root = 0

abbrev pub fid_file : ℕ → ℕ
fid_file slot = slot + 1

abbrev pub fid_dir : ℕ → ℕ
fid_dir slot = slot + 200

abbrev pub fid_scratch_a : ℕ
fid_scratch_a = 100

abbrev pub fid_scratch_b : ℕ
fid_scratch_b = 101

abbrev pub p9_tag : ℕ
p9_tag = 1

abbrev pub io_overhead : ℕ
io_overhead = 32

abbrev pub enoent : ℕ
enoent = 2

abbrev pub ebadf : ℕ
ebadf = 9

abbrev pub einval : ℕ
einval = 22

abbrev pub emfile : ℕ
emfile = 24

abbrev pub enametoolong : ℕ
enametoolong = 36

abbrev pub enosys : ℕ
enosys = 38

abbrev pub stat_buf_size : ℕ
stat_buf_size = 48

abbrev pub dirent_hdr_size : ℕ
dirent_hdr_size = 10

abbrev pub version_str : Bytes
version_str = b'9' ∷ b'P' ∷ b'2' ∷ b'0' ∷ b'0' ∷ b'0' ∷ b'.' ∷ b'L' ∷ []

-- sh_open_flags
abbrev pub sh_open_flags : List ℕ
sh_open_flags =
    o_rdonly
    ∷ o_rdonly
    ∷ o_rdwr
    ∷ o_rdwr
    ∷ bit_or (bit_or o_wronly o_creat) o_trunc
    ∷ bit_or (bit_or o_wronly o_creat) o_trunc
    ∷ bit_or (bit_or o_rdwr o_creat) o_trunc
    ∷ bit_or (bit_or o_rdwr o_creat) o_trunc
    ∷ bit_or (bit_or o_wronly o_creat) o_append
    ∷ bit_or (bit_or o_wronly o_creat) o_append
    ∷ bit_or (bit_or o_rdwr o_creat) o_append
    ∷ bit_or (bit_or o_rdwr o_creat) o_append
    ∷ []
