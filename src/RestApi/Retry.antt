-- ===== src/RestApi/Retry.antt =====
-- A skipped failure while there are more pages.
use amundsen_fork.Prelude.{ℕ, zero, suc, String, ◌≡◌, refl, true}
use amundsen_fork.Prelude.Effects.{return, raise, Action}
use amundsen_fork.RestApi.Merger.{Dict, Failure, out_of_fuel}
use amundsen_fork.RestApi.Execution.{Hooks, RestApiQuery, after_request, page, pages}

-- Where a request for a page after the first fails in a way that can be skipped, and would do so again,
-- no number of rounds ends the loop: it goes on to ask for the same page.
pub pages-stuck :
    {W E V R : Type 0} (h : Hooks W E V R) (q : RestApiQuery E) (d : Dict V)
    (body : Dict V → Action W (Failure E) (Unit {0})) (w : W) (url : String) (ex : Failure E)
    (fuel : ℕ)
    → h.preprocess_url d w ≡ (return url, w)
    → h.send_request url w ≡ (raise ex, w)
    → q.can_skip_failure ex ≡ true
    → h.more_pages w ≡ true
    → pages h q fuel d body w ≡ (raise out_of_fuel, w)
unfolding pages page after_request
pages-stuck h q d body w url ex zero u s k m = refl
pages-stuck h q d body w url ex (suc fuel) u s k m =
    rw (u, s, k, m) (pages-stuck h q d body w url ex fuel u s k m)
