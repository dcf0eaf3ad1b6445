-- ===== src/Proxy/Status.antt =====
-- internal/proxy/proxy.go: the line of `Status`, which reads one counter after the other while the
-- relays go on.
pub mod Window
use sccache_dist_action.Common.{Text, codes, ℕ, ◌≡◌, refl, ◌++◌}
use sccache_dist_action.Stdlib.Decimal.{itoa_ℕ}
use sccache_dist_action.Stdlib.DurationText.{round_to, fraction_digits, duration_text}
use sccache_dist_action.Proxy.Counters.{Counters, System, report, Reach}

-- What the line is made of, in the order of the reads.
pub record Reads : Type 0 where
  pub slowest_dial : ℕ
  pub active : ℕ
  pub total : ℕ
  pub dial_retries : ℕ
  pub dial_fails : ℕ

unfoldable pub status_line : Text → Reads → Text
status_line name r =
    name
    ++ codes ": active="
    ++ itoa_ℕ r.active
    ++ codes " total="
    ++ itoa_ℕ r.total
    ++ codes " dial-retry="
    ++ itoa_ℕ r.dial_retries
    ++ codes " dial-fail="
    ++ itoa_ℕ r.dial_fails
    ++ codes " slowest-dial="
    ++ duration_text (round_to 1000000 r.slowest_dial)

-- The reads of a call of `Status` at `s` that ends at `t`: the swap, and then each load after
-- whatever the relays and other calls of `Status` did in the meantime.
pub record Taken (s : System) (t : System) (r : Reads) : Type 0 where
  pub at_active : System
  pub at_total : System
  pub at_retries : System
  pub swapped : r.slowest_dial ≡ s.counters.slowest_dial
  pub to_active : Reach (report s) at_active
  pub active_read : r.active ≡ at_active.counters.active
  pub to_total : Reach at_active at_total
  pub total_read : r.total ≡ at_total.counters.total
  pub to_retries : Reach at_total at_retries
  pub retries_read : r.dial_retries ≡ at_retries.counters.dial_retries
  pub to_fails : Reach at_retries t
  pub fails_read : r.dial_fails ≡ t.counters.dial_fails

status_line_test :
    status_line (codes "worker 1") (record {
      slowest_dial = 4100300000;
      active = 2;
      total = 31;
      dial_retries = 1;
      dial_fails = 0;
    })
    ≡ codes "worker 1: active=2 total=31 dial-retry=1 dial-fail=0 slowest-dial=4.1s"
unfolding status_line itoa_ℕ duration_text round_to fraction_digits
status_line_test = refl
