-- ===== src/Logs/Message.antt =====
-- The messages that the editor logs for an operation (src/pipeline.cpp) and the line that the
-- logger writes around a message (src/logger.cpp).
use cs4730_collaborative_tex.Base.{ℕ, ◌++◌}
use cs4730_collaborative_tex.Text.{Text, codes}
use cs4730_collaborative_tex.Text.Decimal.{print}

-- `"TAG siteID=" + to_string(siteID) + " clock=" + to_string(clock) + " ts_us=" + to_string(ts)`;
-- the clock of an operation is positive.
unfoldable pub latency_message : Text → ℕ → ℕ → ℕ → Text
latency_message tag site clock ts =
    tag
    ++ (codes " siteID="
        ++ (print site ++ (codes " clock=" ++ (print clock ++ (codes " ts_us=" ++ print ts)))))

-- What `sendLoop` logs.
unfoldable pub sent_message : ℕ → ℕ → ℕ → Text
unfolding latency_message
sent_message site clock ts = latency_message (codes "LATENCY_SEND") site clock ts

-- What `applyOneCrdt` logs.
unfoldable pub applied_message : ℕ → ℕ → ℕ → Text
unfolding latency_message
applied_message site clock ts = latency_message (codes "LATENCY_APPLY") site clock ts

-- `[time] [level] [site] [module] message\n`; the time and the site are printed by `snprintf`.
unfoldable pub log_line : Text → Text → Text → Text → Text → Text
log_line time level site component message =
    codes "["
    ++ (time
        ++ (codes "] ["
            ++ (level
                ++ (codes "] ["
                    ++ (site
                        ++ (codes "] ["
                            ++ (component ++ (codes "] " ++ (message ++ codes "\n")))))))))
