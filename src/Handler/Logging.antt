-- ===== src/Handler/Logging.antt =====
-- middleware/logging.go, and what a request carries in its context.
use digital_ocean_assignment.Base.{String, Option, none, some, List, [], ◌∷◌, ◌++◌}
use digital_ocean_assignment.Db.Session.{World}
use digital_ocean_assignment.Service.Token.{LocalClaims}
use digital_ocean_assignment.Handler.Http.{Served}

-- A zap logger: the fields that it adds to a line, or the logger that writes nothing.
pub data Logger : Type 0 where
  nop : Logger
  fields : List (String × String) → Logger

abbrev pub with_fields : Logger → List (String × String) → Logger
with_fields nop more = nop
with_fields (fields old) more = fields (old ++ more)

-- A line of the log: its message and its fields.
abbrev pub Line : Type 0
Line = String × List (String × String)

abbrev pub info : Logger → String → List Line
info nop message = []
info (fields fs) message = (message, fs) ∷ []

-- The values stored under the two keys of the middleware.
pub record Context : Type 0 where
  pub logger : Option Logger
  pub claims : Option LocalClaims

abbrev pub background : Context
background = record { logger = none; claims = none }

-- `GetLogger`.
unfoldable pub get_logger : Context → Logger
get_logger ctx = elim ctx.logger [ none ↦ nop | some logger ↦ logger ]

-- The parts of a request that the middleware reads.
pub record Request : Type 0 where
  pub method : String
  pub path : String
  pub remote_addr : String
  pub authorization : String

abbrev pub Endpoint : Type 0
Endpoint = Context → World → Served

-- The logger that `RequestLogger` puts into the context.
abbrev pub request_fields : Logger → Request → Logger
request_fields root req =
    with_fields root
      (("method", req.method) ∷ ("path", req.path) ∷ ("remote_addr", req.remote_addr) ∷ [])

-- `RequestLogger`: its own line, and what the next handler serves.
unfoldable pub request_logger :
    Logger → (Request → Endpoint) → Request → Context → World → List Line × Served
request_logger root next req ctx w =
    let logger = request_fields root req in
    (info logger "handling request", next req (record ctx { logger = some logger }) w)
