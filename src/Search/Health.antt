-- ===== src/Search/Health.antt =====
-- `ElasticsearchProxyV2.health`.
use amundsen_fork.Prelude.{
  String, str_eq, Bool, true, false, if◌then◌else◌, Option, none, some, ◌≡◌, refl,
}
use mathlib.Core.List
use amundsen_fork.Prelude.Effects.{Action, Result, return, raise, pure, throw, ◌>>=◌}
use amundsen_fork.RestApi.{Dict, get}

pub data Status : Type 0 where
  ok : Status
  fail : Status

-- The exceptions of the client: of the connection, or others.
pub data ClientError (E : Type 0) : Type 0 where
  connection_error : ClientError E
  other_error : E → ClientError E
  missing_status : ClientError E

pub record HealthCheck : Type 0 where
  pub status : Status
  pub connection : Dict String

abbrev unable_to_connect : Dict String
unable_to_connect = List.◌∷◌ ("status", "Unable to connect") List.[]

module _ {W E : Type 0} (ping : Action W (ClientError E) Bool)
    (cluster_health : Action W (ClientError E) (Dict String)) where
  unfoldable pub status_of : Dict String → Option String → Action W (ClientError E) HealthCheck
  status_of health none = throw missing_status
  status_of health (some status) =
      pure (record { status = if str_eq status "red" then fail else ok; connection = health })

  unfoldable pub pinged : Bool → Action W (ClientError E) HealthCheck
  pinged true = cluster_health >>= λ health. status_of health (get "status" health)
  pinged false = pure (record { status = fail; connection = unable_to_connect })

  -- `except ElasticConnectionError`
  unfoldable pub without_connection :
      Result (ClientError E) HealthCheck → Result (ClientError E) HealthCheck
  without_connection (return check) = return check
  without_connection (raise connection_error) =
      return (record { status = fail; connection = unable_to_connect })
  without_connection (raise e) = raise e

  unfoldable pub health : Action W (ClientError E) HealthCheck
  health w = let out = (ping >>= λ answers. pinged answers) w in (without_connection out.0, out.1)

abbrev answering : Action (Unit {0}) (ClientError String) Bool
answering = pure true

abbrev reporting : String → Action (Unit {0}) (ClientError String) (Dict String)
reporting status = pure (List.◌∷◌ ("status", status) List.[])

abbrev unreachable : Action (Unit {0}) (ClientError String) Bool
unreachable = throw connection_error

abbrev check_of : Status → Dict String → HealthCheck
check_of status connection = record { status = status; connection = connection }

health_red :
    (health answering (reporting "red") tt).0
    ≡ return (check_of fail (List.◌∷◌ ("status", "red") List.[]))
unfolding health pinged status_of without_connection get
health_red = refl

health_yellow :
    (health answering (reporting "yellow") tt).0
    ≡ return (check_of ok (List.◌∷◌ ("status", "yellow") List.[]))
unfolding health pinged status_of without_connection get
health_yellow = refl

unreachable_fails :
    (health unreachable (reporting "green") tt).0 ≡ return (check_of fail unable_to_connect)
unfolding health pinged without_connection
unreachable_fails = refl
