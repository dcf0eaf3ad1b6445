-- ===== src/Main/Pid.antt =====
-- cmd/sccache-dist-action/procctl.go: the file with the forwarder's process id, and the teardown in
-- main.go that reads it.
use sccache_dist_action.Common.{
  if◌then◌else◌, All, ℤ, ltb_ℤ, Text, pos, ℕ, ◌+◌, ◌≤◌, ◌<◌, ◌≡◌, refl, ap, ◌∙◌, Bool, true, false,
  Option, none, some, [], ◌∷◌, arith,
}
use sccache_dist_action.Stdlib.Decimal.{itoa_ℕ, itoa, atoi_value}
use sccache_dist_action.Stdlib.Decimal.RoundTrip.{itoa_ℕ-All, atoi_value-itoa}
use sccache_dist_action.Stdlib.Strings.{is_space, trim_left, trim_right, trim_space}

-- The file, none if there is none; `writes` says whether os.WriteFile succeeds, its error is
-- dropped. A file that cannot be written stays as it was.
unfoldable pub write_pid : Bool → ℤ → Option Text → Option Text
write_pid writes pid file = if writes then some (itoa pid) else file

-- An unreadable file gives 0, and so does an unreadable number.
unfoldable pub read_pid : Option Text → ℤ
read_pid none = pos 0
read_pid (some b) = atoi_value (trim_space b)

-- The process that `main` signals in the teardown phase, if any.
unfoldable pub teardown : Option Text → Option ℤ
teardown file = if ltb_ℤ (pos 0) (read_pid file) then some (read_pid file) else none

abbrev IsSolid : Text → Type 0
IsSolid = All (λ c. is_space c ≡ false)

trim_right_solid : (s : Text) → IsSolid s → trim_right s ≡ s
unfolding trim_right
trim_right_solid [] h = refl
trim_right_solid (c ∷ []) (h, hs) = ground arith
trim_right_solid (c ∷ d ∷ s) (h, hs) = rw (trim_right_solid (d ∷ s) hs) refl

trim_left_solid : (c : ℕ) (s : Text) → is_space c ≡ false → trim_left (c ∷ s) ≡ c ∷ s
unfolding trim_left
trim_left_solid c s h = ground arith

trim_space_solid : (s : Text) → IsSolid s → trim_space s ≡ s
unfolding trim_space
trim_space_solid [] h = unfold trim_right trim_left in refl
trim_space_solid (c ∷ s) (h, hs) =
    ap trim_right (trim_left_solid c s h) ∙ trim_right_solid (c ∷ s) (h, hs)

digit_solid : (d : ℕ) → d < 10 → is_space (b'0' + d) ≡ false
digit_solid d h = ground arith

itoa_ℕ-IsSolid : (n : ℕ) → IsSolid (itoa_ℕ n)
itoa_ℕ-IsSolid n = itoa_ℕ-All (λ c. is_space c ≡ false) digit_solid n

read_pid-write_pid :
    (n : ℕ) (file : Option Text)
    → n ≤ 9223372036854775807
    → read_pid (write_pid true (pos n) file) ≡ pos n
unfolding read_pid write_pid itoa
read_pid-write_pid n file h =
    rw (trim_space_solid (itoa_ℕ n) (itoa_ℕ-IsSolid n)) (unfold itoa in atoi_value-itoa n h)

-- The teardown phase signals exactly the process whose id the main phase wrote, whatever the file
-- held before; with no file, or one whose text is no positive number, it signals none.
pub teardown-write_pid :
    (n : ℕ) (file : Option Text)
    → 1 ≤ n
    → n ≤ 9223372036854775807
    → (teardown (write_pid true (pos n) file) ≡ some (pos n))
      × (teardown (write_pid false (pos n) none) ≡ none)
unfolding teardown
teardown-write_pid n file low high =
    (rw (read_pid-write_pid n file high) (ground arith), unfold write_pid read_pid in refl)
