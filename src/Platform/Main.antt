-- ===== src/Platform/Main.antt =====
-- src/main.cpp: what is set up, and the loop that hands messages to the server. Output and log lines
-- are left out. A path is looked up from the working folder.
pub mod Setup
pub mod Loop
use security_transmission_pl.Base.{
  ℕ, ◌+◌, ◌%◌, ◌^◌, Bool, true, false, Option, none, some, List, [], ◌∷◌, ◌++◌, not, ◌&&◌, ◌||◌,
  if◌then◌else◌,
}
use security_transmission_pl.Base.Bytes.{same_bytes}
use security_transmission_pl.Base.Result.{
  Error, Result, ok, throws, undefined, filesystem_error, runtime_error, ◌>>=◌,
}
use security_transmission_pl.Net.Message.{Message, OwnedMessage}
use security_transmission_pl.Net.TsQueue.{TsQueue, push_back}
use security_transmission_pl.Net.Connection.{Connection}
use security_transmission_pl.Net.ServerInterface.{ServerInterface, new_server, start, update_loop}
use security_transmission_pl.Crypto.Rsa.{OpenSsl, generated, save_rsa_key}
use security_transmission_pl.Platform.Json.{Json}
use security_transmission_pl.Platform.World.{assign_file, is_there}

-- "for_server/server.json"
abbrev pub settings_file : List ℕ
settings_file =
    102 ∷ 111 ∷ 114 ∷ 95 ∷ 115 ∷ 101 ∷ 114 ∷ 118 ∷ 101 ∷ 114 ∷ 47 ∷ 115 ∷ 101 ∷ 114 ∷ 118 ∷ 101
    ∷ 114 ∷ 46 ∷ 106 ∷ 115 ∷ 111 ∷ 110 ∷ []

-- "server_id"
abbrev pub server_id_key : List ℕ
server_id_key = 115 ∷ 101 ∷ 114 ∷ 118 ∷ 101 ∷ 114 ∷ 95 ∷ 105 ∷ 100 ∷ []

-- "port"
abbrev pub port_key : List ℕ
port_key = 112 ∷ 111 ∷ 114 ∷ 116 ∷ []

-- "for_server"
abbrev pub server_folder : List ℕ
server_folder = 102 ∷ 111 ∷ 114 ∷ 95 ∷ 115 ∷ 101 ∷ 114 ∷ 118 ∷ 101 ∷ 114 ∷ []

-- "seckey"
abbrev pub key_folder : List ℕ
key_folder = 115 ∷ 101 ∷ 99 ∷ 107 ∷ 101 ∷ 121 ∷ []

-- "server_pubkey.pem"
abbrev pub pubkey_file : List ℕ
pubkey_file =
    115 ∷ 101 ∷ 114 ∷ 118 ∷ 101 ∷ 114 ∷ 95 ∷ 112 ∷ 117 ∷ 98 ∷ 107 ∷ 101 ∷ 121 ∷ 46 ∷ 112 ∷ 101 ∷ 109
    ∷ []

-- "server_prikey.pem"
abbrev pub prikey_file : List ℕ
prikey_file =
    115 ∷ 101 ∷ 114 ∷ 118 ∷ 101 ∷ 114 ∷ 95 ∷ 112 ∷ 114 ∷ 105 ∷ 107 ∷ 101 ∷ 121 ∷ 46 ∷ 112 ∷ 101
    ∷ 109 ∷ []

-- The files and the directories by their full paths, and the working folder with its slash.
pub record Disk : Type 0 where
  pub files : List ℕ → Option (List ℕ)
  pub directories : List ℕ → Bool
  pub folder : List ℕ

-- What the program asks of the system and of OpenSSL: which directories can be made and which files
-- be opened for writing, and the two halves of a new key with their text forms.
pub record Os (Key : Type 0) : Type 0 where
  pub can_create : List ℕ → Bool
  pub can_write : List ℕ → Bool
  pub ssl : OpenSsl Key
  pub public_key : Key
  pub private_key : Key
  pub pem_public : Option Key → List ℕ
  pub pem_private : Option Key → List ℕ

-- `std::filesystem::exists(path)`
unfoldable pub exists : List ℕ → Disk → Bool
unfolding is_there
exists path d = is_there (d.files (d.folder ++ path)) || d.directories (d.folder ++ path)

-- `std::filesystem::current_path(path)`
unfoldable pub enter : List ℕ → Disk → Result Disk
enter path d =
    if d.directories (d.folder ++ path)
    then ok (record d { folder = d.folder ++ (path ++ 47 ∷ []) })
    else throws filesystem_error

module _ {Key : Type 0} (os : Os Key) where
  -- `if (!exists(path)) create_directory(path);`
  unfoldable pub need_directory : List ℕ → Disk → Result Disk
  unfolding exists
  need_directory path d =
      let full = d.folder ++ path in
      let made =
        (if os.can_create full
          then ok
              (record d { directories = λ p. if same_bytes p full then true else d.directories p })
          else throws filesystem_error) in
      if exists path d then ok d else made

  -- A key's file; OpenSSL writes nothing to a file that could not be opened.
  abbrev pub write_key : List ℕ → List ℕ → Disk → Disk
  write_key path pem d =
      let full = d.folder ++ path in
      if os.can_write full then record d { files = assign_file d.files full (some pem) } else d

  -- `MyRSA rsa(1); rsa.SaveRSAKey("server_pubkey.pem", "server_prikey.pem");`
  unfoldable pub new_keys : Disk → Result Disk
  new_keys d = do
    (public, private) ← save_rsa_key os.ssl (generated os.ssl os.public_key os.private_key)
    ok (
        write_key prikey_file (os.pem_private private)
          (write_key pubkey_file (os.pem_public public) d))

  -- The body of the `try` up to the server.
  unfoldable pub prepare : Disk → Result Disk
  unfolding need_directory exists enter new_keys
  prepare d = do
    d₁ ← need_directory server_folder d
    d₂ ← enter server_folder d₁
    d₃ ← need_directory key_folder d₂
    let fresh = new_keys d₃ in
        if not (exists pubkey_file d₃) || not (exists prikey_file d₃) then fresh else ok d₃

-- How `main` goes on: an exception that nothing catches, one that is logged before `main` returns,
-- or the loop.
pub data Outcome (T : Type 0) : Type 0 where
  terminates : Error → Outcome T
  reports : Error → Outcome T
  breaks : Outcome T
  loops : List ℕ → ℕ → ServerInterface T → Disk → Outcome T

-- The settings, which are read before the `try`: the server's name, and the port cut to 16 bits.
unfoldable pub read_settings : {Root : Type 0} → Json Root → Result (List ℕ × ℕ)
read_settings json = do
  root ← json.parse_file settings_file
  server_id ← json.as_string root server_id_key
  port ← json.as_uint root port_key
  ok (server_id, port % 2 ^ 16)

-- What follows when the directories and the keys are there. `bound` says whether asio could take the
-- port, without which the constructor of the server throws; `fails` whether asio throws in `Start`,
-- whose result is not looked at.
abbrev pub served :
    {T : Type 0} → (ℕ → Connection T) → Bool → Bool → List ℕ → ℕ → Result Disk → Outcome T
served heap true fails server_id port (ok d) =
    loops server_id port (start fails (new_server heap)).0 d
served heap false fails server_id port (ok d) = reports runtime_error
served heap bound fails server_id port (throws x) = reports x
served heap bound fails server_id port undefined = breaks

abbrev pub with_settings :
    {Key T : Type 0}
    → Os Key
    → (ℕ → Connection T)
    → Bool
    → Bool
    → Disk
    → Result (List ℕ × ℕ)
    → Outcome T
with_settings os heap bound fails d (ok (server_id, port)) =
    served heap bound fails server_id port (prepare os d)
with_settings os heap bound fails d (throws x) = terminates x
with_settings os heap bound fails d undefined = breaks

-- `main` up to its loop.
unfoldable pub main :
    {Root Key T : Type 0} → Json Root → Os Key → (ℕ → Connection T) → Bool → Bool → Disk → Outcome T
unfolding read_settings prepare
main json os heap bound fails d = with_settings os heap bound fails d (read_settings json)

-- What happens in the loop: a connection's thread puts a message into the queue, or the loop goes
-- through its body once.
pub data Event (T : Type 0) : Type 0 where
  arrives : OwnedMessage T → Event T
  rounds : Event T

abbrev and_then {ℓ κ} : {A : Type ℓ} {B : Type κ} → Option A → (A → Option B) → Option B
and_then none f = none
and_then (some a) f = f a

-- The loop `while (true) server.Update(1);` through a sequence of events.
unfoldable pub main_loop {ℓ} :
    {T : Type 0} {S : Type ℓ}
    → (Option ℕ → Message T → S → S)
    → List (Event T)
    → TsQueue (OwnedMessage T)
    → S
    → Option (TsQueue (OwnedMessage T) × S)
main_loop on_message [] q s = some (q, s)
main_loop on_message (arrives m ∷ events) q s = main_loop on_message events (push_back q m) s
main_loop on_message (rounds ∷ events) q s =
    and_then (update_loop on_message 1 q s) (λ (q', s'). main_loop on_message events q' s')
