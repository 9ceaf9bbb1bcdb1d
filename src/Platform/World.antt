-- ===== src/Platform/World.antt =====
-- What the handlers of src/Server.cc act on, and the code that they call outside the repository.
-- A handler takes the world and gives its result, which may be an exception, with the world after
-- it: what was done before an exception stays done.
use security_transmission_pl.Base.{ℕ, Bool, true, false, Option, none, some, List, if◌then◌else◌}
use security_transmission_pl.Base.Result.{Result, ok, throws, undefined, spdlog_ex}
use security_transmission_pl.Base.Bytes.{same_bytes}
use security_transmission_pl.Net.Message.{Message}
use security_transmission_pl.Net.Connection.{Connection}
use security_transmission_pl.Net.ServerInterface.{send_to}
use security_transmission_pl.Proto.Runtime.{Runtime}
use security_transmission_pl.Proto.Msg.{NetMsgType}
use security_transmission_pl.Crypto.Hash.{HashType}
use security_transmission_pl.Crypto.Rsa.{OpenSsl}

-- OpenSSL, protobuf, EVP's hash, spdlog and the random numbers. `basic_logger registry name` is
-- `spdlog::basic_logger_mt` with its global registry, `none` for the exception that it throws;
-- `can_write` says for which paths an output file can be opened.
pub record Env (Key L : Type 0) : Type 0 where
  pub ssl : OpenSsl Key
  pub runtime : Runtime
  pub digest : HashType → List ℕ → List ℕ
  pub basic_logger : L → List ℕ → Option L
  pub can_write : List ℕ → Bool
  pub rand : ℕ → ℕ
  pub draw : ℕ → ℕ

-- The files by their paths, spdlog's registry, and the connections by their handles.
pub record World (L : Type 0) : Type 0 where
  pub files : List ℕ → Option (List ℕ)
  pub loggers : L
  pub heap : ℕ → Connection NetMsgType

abbrev pub assign_file :
    (List ℕ → Option (List ℕ)) → List ℕ → Option (List ℕ) → (List ℕ → Option (List ℕ))
assign_file files path content p = if same_bytes p path then content else files p

-- Whether there is a file.
unfoldable pub is_there : Option (List ℕ) → Bool
is_there none = false
is_there (some content) = true

-- A handler's step.
abbrev pub M : Type 0 → Type 0 → Type 0
M L A = World L → Result A × World L

abbrev pub chain :
    {L A B : Type 0} → Result A × World L → (A → World L → Result B × World L) → Result B × World L
chain (ok a, w) f = f a w
chain (throws e, w) f = (throws e, w)
chain (undefined, w) f = (undefined, w)

infixl 5 ◌>>=◌ ◌>>◌
abbrev pub ◌>>=◌ : {L A B : Type 0} → M L A → (A → M L B) → M L B
◌>>=◌ m f w = chain (m w) f

abbrev pub ◌>>◌ : {L B : Type 0} → M L (Unit {0}) → M L B → M L B
m >> k = m >>= λ _. k

module _ {L : Type 0} where
  abbrev pub pure : {A : Type 0} → A → M L A
  pure a w = (ok a, w)

  abbrev pub lift : {A : Type 0} → Result A → M L A
  lift r w = (r, w)

  -- `std::filesystem::exists(path)`
  unfoldable pub exists : List ℕ → M L Bool
  unfolding is_there
  exists path w = (ok (is_there (w.files path)), w)

  -- The bytes of a file that is opened for reading.
  unfoldable pub read_file : List ℕ → M L (Option (List ℕ))
  read_file path w = (ok (w.files path), w)

  -- `std::filesystem::remove(path)`
  unfoldable pub remove : List ℕ → M L (Unit {0})
  remove path w = (ok tt, record w { files = assign_file w.files path none })

  -- The two ways in which a logger's creation ends.
  abbrev pub registered : Option L → M L (Unit {0})
  registered none w = (throws spdlog_ex, w)
  registered (some registry) w = (ok tt, record w { loggers = registry })

  -- `client->Send(msg)`
  unfoldable pub send : ℕ → Message NetMsgType → M L (Unit {0})
  send client msg w = (ok tt, record w { heap = send_to (some client) msg w.heap })

  module _ {Key : Type 0} (e : Env Key L) where
    -- `std::ofstream out(path); out << content; out.close();`
    unfoldable pub write_file : List ℕ → List ℕ → M L (Unit {0})
    write_file path content w = (
      ok tt,
      if e.can_write path then record w { files = assign_file w.files path (some content) } else w,
    )

    -- `auto logger = spdlog::basic_logger_mt(name, "log/server")`
    unfoldable pub make_logger : List ℕ → M L (Unit {0})
    make_logger name w = registered (e.basic_logger w.loggers name) w
