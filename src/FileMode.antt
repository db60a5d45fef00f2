-- ===== src/FileMode.antt =====
-- agent/storage/utils.go: fileMode and unixMode.
use btrfs_nfs_csi.Base.{
  ℕ, zero, suc, ◌^◌, ◌≤◌, ◌<◌, ◌≡◌, refl, Bool, true, ◌&&◌, bit_and, bit_or, ◌==◌, ==_iff, arith,
  if◌then◌else◌,
}

-- os.ModeSetuid, os.ModeSetgid and os.ModeSticky of package os.
abbrev mode_setuid : ℕ
mode_setuid = 2 ^ 23

abbrev mode_setgid : ℕ
mode_setgid = 2 ^ 22

abbrev mode_sticky : ℕ
mode_sticky = 2 ^ 20

-- `if value&mask != 0 { m |= bit }`
abbrev carry : ℕ → ℕ → ℕ → ℕ → ℕ
carry value mask bit m = if bit_and value mask == 0 then m else bit_or m bit

unfoldable pub file_mode : ℕ → ℕ
file_mode mode =
    carry mode 0o1000 mode_sticky
      (carry mode 0o2000 mode_setgid (carry mode 0o4000 mode_setuid (bit_and mode 0o777)))

-- `m.Perm()` keeps the nine permission bits.
unfoldable pub unix_mode : ℕ → ℕ
unix_mode m =
    carry m mode_sticky 0o1000
      (carry m mode_setgid 0o2000 (carry m mode_setuid 0o4000 (bit_and m 0o777)))

-- A test that passes on each number below a bound.
every : (ℕ → Bool) → ℕ → Bool
every test zero = true
every test (suc k) = every test k && test k

every-passes : (test : ℕ → Bool) (bound m : ℕ) → m < bound → every test bound ≡ true → test m ≡ true
unfolding every
every-passes test zero m under passed = absurd (omega arith)
every-passes test (suc k) m under passed = ground (every-passes test k m, arith)

survives : ℕ → Bool
survives m = unix_mode (file_mode m) == m

all_modes : every survives 0o10000 ≡ true
unfolding every survives file_mode unix_mode
all_modes = refl

-- Every mode of four octal digits survives the conversion to os.FileMode and back.
pub unix_mode-file_mode : (m : ℕ) → m ≤ 0o7777 → unix_mode (file_mode m) ≡ m
unfolding survives
unix_mode-file_mode m four_digits =
    (==_iff _ m).0 (every-passes survives 0o10000 m (omega arith) all_modes)
