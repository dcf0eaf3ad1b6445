-- ===== src/Config/Defaults.antt =====
-- What an input that is empty means.
use sccache_dist_action.Common.{Text, codes, ok, ℕ, ◌≡◌, refl, ◌∙◌, ◌≢◌, [], ◌∷◌, arith}
use sccache_dist_action.Config.{Config, or_default, inputs, checked, load_from}

or_default-ne : (v d : Text) → d ≢ [] → or_default v d ≢ []
unfolding or_default
or_default-ne [] d h = h
or_default-ne (c ∷ v) d h = λ e. cc

or_default-nil : (v d : Text) → v ≡ [] → or_default v d ≡ d
unfolding or_default
or_default-nil v d e = rw e refl

pub or_default-some : (v d : Text) → v ≢ [] → or_default v d ≡ v
unfolding or_default
or_default-some [] d h = absurd (h refl)
or_default-some (c ∷ v) d h = refl

checked-server_log :
    (get : Text → Text) (c d : Config) → checked get c ≡ ok d → d.server_log ≡ c.server_log
unfolding checked
checked-server_log get c d h = ground arith

-- No environment gives an empty log directive, so logging is never disabled: an empty
-- INPUT_SERVER_LOG gives the default, and any other is taken as it is.
pub server_log_on :
    (fraction : ℕ → ℕ → ℕ → ℕ) (get : Text → Text) (d : Config)
    → load_from fraction get ≡ ok d
    → (d.server_log ≢ [])
      × (get (codes "INPUT_SERVER_LOG") ≡ [] → d.server_log ≡ codes "info,sccache_compile=trace")
      × (get (codes "INPUT_SERVER_LOG") ≢ [] → d.server_log ≡ get (codes "INPUT_SERVER_LOG"))
unfolding load_from
server_log_on fraction get d h =
    let c = inputs fraction get in
    let same = checked-server_log get c d h in
    let v = get (codes "INPUT_SERVER_LOG") in
    (
      rw same (or_default-ne v (codes "info,sccache_compile=trace") (λ e. cc)),
      λ e. same ∙ or_default-nil v (codes "info,sccache_compile=trace") e,
      λ k. same ∙ or_default-some v (codes "info,sccache_compile=trace") k,
    )
