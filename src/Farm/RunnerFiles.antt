-- ===== src/Farm/RunnerFiles.antt =====
-- What a later step of the job reads in the two files of the runner that the coordinator's `Run`
-- appends to.
use sccache_dist_action.Common.{
  All, All-append, Text, codes, text_eq_refl, ok, ℤ, pos, negsuc, ℕ, suc, ◌≡◌, sym, ap, ◌∙◌, ◌≢◌,
  Bool, true, false, List, [], ◌∷◌, ◌++◌, map, append-nil, append_assoc, arith,
}
use sccache_dist_action.Stdlib.Decimal.{itoa}
use sccache_dist_action.Stdlib.Decimal.RoundTrip.{itoa_ℕ-All}
use sccache_dist_action.Stdlib.Paths.{join}
use sccache_dist_action.Config.{Config}
use sccache_dist_action.Coordinator.Forward.{bool_str}
use sccache_dist_action.Coordinator.Run.{Action, World, run, append, j_of}
use sccache_dist_action.Coordinator.Run.Exports.{IsAtHand, run-exports}
use sccache_dist_action.Farm.Settings.{
  settings, OneLine, IsWhole, written, AreSettings, concat, settings-append, settings-written,
}
use sccache_dist_action.Farm.Handover.{
  content_after, Spares, content_after_spared, All-spare, append-Spares, content_after-append,
}

-- Each line is a write of its own.
content_after-lines :
    (path content : Text) (ls : List Text)
    → content_after path content (map (append path) ls) ≡ content ++ concat ls
unfolding content_after
content_after-lines path content [] = sym (append-nil content)
content_after-lines path content (l ∷ ls) =
    rw (content_after, text_eq_refl path)
      (content_after-lines path (content ++ l) ls ∙ append_assoc content l (concat ls))

itoa-OneLine : (n : ℤ) → OneLine (itoa n)
unfolding itoa
itoa-OneLine (pos n) = itoa_ℕ-All (λ c. c ≢ b'\n') (λ d h e. absurd (omega (arith, e, h))) n
itoa-OneLine (negsuc n) = (
  λ e. absurd (omega (arith, e)),
  itoa_ℕ-All (λ c. c ≢ b'\n') (λ d h e. absurd (omega (arith, e, h))) (suc n),
)

bool_str-OneLine : (b : Bool) → OneLine (bool_str b)
unfolding bool_str
bool_str-OneLine true = ((λ e. absurd (omega (arith, e))), tt)
bool_str-OneLine false = ((λ e. absurd (omega (arith, e))), tt)

module _ {E : Type 0} (table : ℕ → Bool) (c : Config) (hostname : Text) (w : World E) where
  abbrev pub output_values : List (Text × Text)
  output_values =
      (codes "workers-online", itoa w.registered)
      ∷ (codes "sccache-j", itoa (j_of c w))
      ∷ (codes "scheduler-url", codes "http://127.0.0.1:10600")
      ∷ (codes "log-file", w.log_path)
      ∷ []

  abbrev pub variable_values : List (Text × Text)
  variable_values =
      (codes "SCCACHE_J", itoa (j_of c w))
      ∷ (codes "SCCACHE_WORKERS_ONLINE", itoa w.registered)
      ∷ (codes "SCCACHE_DIR", join w.home (codes ".cache/sccache"))
      ∷ (codes "SCCACHE_DIST_FALLBACK", bool_str c.dist_fallback)
      ∷ []

  output_values-AreSettings : OneLine w.log_path → AreSettings output_values
  output_values-AreSettings h = (
    (ground arith, ground arith, itoa-OneLine w.registered),
    (
      (ground arith, ground arith, itoa-OneLine (j_of c w)),
      ((ground arith, ground arith, ground arith), ((ground arith, ground arith, h), tt)),
    ),
  )

  variable_values-AreSettings :
      OneLine (join w.home (codes ".cache/sccache")) → AreSettings variable_values
  variable_values-AreSettings h = (
    (ground arith, ground arith, itoa-OneLine (j_of c w)),
    (
      (ground arith, ground arith, itoa-OneLine w.registered),
      (
        (ground arith, ground arith, h),
        ((ground arith, ground arith, bool_str-OneLine c.dist_fallback), tt),
      ),
    ),
  )

  -- A file that gets the settings at the end of what it held.
  read_back :
      (path initial : Text) (xs : List (Text × Text)) (start rest : List Action)
      → IsWhole initial
      → AreSettings xs
      → All (Spares path) start
      → All (Spares path) rest
      → settings (content_after path initial (start ++ (map (append path) (written xs) ++ rest)))
        ≡ settings initial ++ xs
  read_back path initial xs start rest whole good before after =
      let lines = map (append path) (written xs) in
      ap settings (
        content_after-append path initial start (lines ++ rest)
        ∙ ap (λ t. content_after path t (lines ++ rest))
            (content_after_spared path initial start before)
        ∙ content_after-append path initial lines rest
        ∙ content_after_spared path (content_after path initial lines) rest after
        ∙ content_after-lines path initial (written xs))
      ∙ settings-append initial (concat (written xs)) whole
      ∙ ap (λ t. settings initial ++ t) (settings-written xs good)

  -- What a later step reads: with GITHUB_OUTPUT and GITHUB_ENV named, different and opened, their last
  -- lines whole, and no newline in the log's path and the cache's directory, a success has left in each
  -- of the two files what it held, and behind that its four settings, each read as it was meant: the
  -- outputs in the one and the variables in the other.
  pub step_reads_exports :
      (outputs_before env_before : Text)
      → IsAtHand table c hostname w w.github_output
      → IsAtHand table c hostname w w.github_env
      → w.github_output ≢ w.github_env
      → IsWhole outputs_before
      → IsWhole env_before
      → OneLine w.log_path
      → OneLine (join w.home (codes ".cache/sccache"))
      → (run table c hostname w).result ≡ ok tt
      → (settings (content_after w.github_output outputs_before (run table c hostname w).trace)
          ≡ settings outputs_before ++ output_values)
        × (settings (content_after w.github_env env_before (run table c hostname w).trace)
            ≡ settings env_before ++ variable_values)
  step_reads_exports outputs_before env_before output env ne whole whole' log dir done =
      let (_, (before, silent, trace)) = run-exports table c hostname w output env done in
      let first = map (append w.github_output) (written output_values) in
      let second = map (append w.github_env) (written variable_values) in
      let variable_lines =
        append-Spares w.github_output w.github_env (written variable_values) (λ e. ne (sym e)) in
      let output_lines = append-Spares w.github_env w.github_output (written output_values) ne in
      (
        rw trace (
            read_back w.github_output outputs_before output_values before second whole
              (output_values-AreSettings log) (All-spare w.github_output before silent)
              variable_lines),
        rw
            (trace
              ∙ sym (append_assoc before first second)
              ∙ ap (λ t. (before ++ first) ++ t) (sym (append-nil second)))
            (read_back w.github_env env_before variable_values (before ++ first) [] whole'
              (variable_values-AreSettings dir)
              (All-append (Spares w.github_env) before first (All-spare w.github_env before silent)
                output_lines)
              tt),
      )
