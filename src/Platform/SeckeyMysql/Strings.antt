-- ===== src/Platform/SeckeyMysql/Strings.antt =====
-- The strings that src/mysql_seckey.cc passes on: C strings out of arrays, and the URL.
use mathlib.Core.List.{append_assoc}
use security_transmission_pl.Base.{
  ℕ, zero, suc, ◌-◌, ◌<◌, ◌≡◌, ◌≢◌, refl, sym, ap, ap₂, ◌∙◌, List, [], ◌∷◌, ◌++◌, length, replicate,
  arith,
}
use security_transmission_pl.Base.Result.{ok, undefined, ◌>>=◌}
use security_transmission_pl.Platform.Tables.{DbInfo, mysqlx_prefix}
use security_transmission_pl.Platform.SeckeyMysql.{c_string, of_db_info, url}

-- The byte stands nowhere in the string.
abbrev pub Without : ℕ → List ℕ → Type 0
Without c [] = Unit {0}
Without c (x ∷ xs) = (x ≢ c) × Without c xs

-- An array of `n` bytes that holds a string and then zeros.
abbrev pub padded : ℕ → List ℕ → List ℕ
padded n str = str ++ replicate (n - length str) 0

-- A string that leaves room for a zero in an array of `n` bytes.
abbrev pub Fits : ℕ → List ℕ → Type 0
Fits n str = (length str < n) × Without 0 str

pub c_string-append : (str rest : List ℕ) → Without 0 str → c_string (str ++ 0 ∷ rest) ≡ ok str
unfolding c_string
c_string-append [] rest w = refl
c_string-append (zero ∷ str) rest (c, w) = absurd (c refl)
c_string-append (suc c ∷ str) rest (_, w) =
    ap (λ r. r >>= λ s. ok (suc c ∷ s)) (c_string-append str rest w)

padded_room :
    (n k : ℕ) (str : List ℕ) → n - length str ≡ suc k → padded n str ≡ str ++ 0 ∷ replicate k 0
padded_room n k str e = ap (λ m. str ++ replicate m 0) e

pub c_string-padded : (n : ℕ) (str : List ℕ) → Fits n str → c_string (padded n str) ≡ ok str
c_string-padded n str (short, w) =
    ap c_string (padded_room n (n - suc (length str)) str (omega arith))
    ∙ c_string-append str (replicate (n - suc (length str)) 0) w

-- An array without a zero is read past its end.
pub c_string_undefined : (bytes : List ℕ) → Without 0 bytes → c_string bytes ≡ undefined
unfolding c_string
c_string_undefined [] w = refl
c_string_undefined (zero ∷ bytes) (c, w) = absurd (c refl)
c_string_undefined (suc c ∷ bytes) (_, w) =
    ap (λ r. r >>= λ s. ok (suc c ∷ s)) (c_string_undefined bytes w)

tails : (x y : ℕ) (xs ys : List ℕ) → x ∷ xs ≡ y ∷ ys → (x ≡ y) × (xs ≡ ys)
tails x y xs ys e = ground (arith, e)

-- A string is cut at the first place where the byte stands.
cut :
    (c : ℕ) (xs ys rest rest' : List ℕ)
    → Without c xs
    → Without c ys
    → xs ++ c ∷ rest ≡ ys ++ c ∷ rest'
    → (xs ≡ ys) × (rest ≡ rest')
cut c [] [] rest rest' wx wy e = (refl, (tails _ _ _ _ e).1)
cut c [] (y ∷ ys) rest rest' wx (n, wy) e = absurd (n (sym (tails _ _ _ _ e).0))
cut c (x ∷ xs) [] rest rest' (n, wx) wy e = absurd (n (tails _ _ _ _ e).0)
cut c (x ∷ xs) (y ∷ ys) rest rest' (_, wx) (_, wy) e =
    let (h, t) = tails _ _ _ _ e in
    let (same, left) = cut c xs ys rest rest' wx wy t in (ap₂ (λ a b. a ∷ b) h same, left)

drop_prefix : (p xs ys : List ℕ) → p ++ xs ≡ p ++ ys → xs ≡ ys
drop_prefix [] xs ys e = e
drop_prefix (x ∷ p) xs ys e = drop_prefix p xs ys (tails _ _ _ _ e).1

-- Two settings whose user names have no colon and whose passwords have no at sign give the same URL
-- only if user, password and host are the same.
pub url-of_db_info_injective :
    (i j : DbInfo)
    → Without 58 i.user_name
    → Without 58 j.user_name
    → Without 64 i.password
    → Without 64 j.password
    → url (of_db_info i) ≡ url (of_db_info j)
    → (i.user_name ≡ j.user_name) × (i.password ≡ j.password) × (i.host_name ≡ j.host_name)
unfolding url of_db_info
url-of_db_info_injective i j ui uj pi pj e =
    let (user, rest) = cut 58 i.user_name j.user_name _ _ ui uj (drop_prefix mysqlx_prefix _ _ e) in
    let (password, host) = cut 64 i.password j.password _ _ pi pj rest in (user, password, host)

-- Nothing in a password is escaped: a password with an at sign gives the URL of the password before
-- the sign, on the host that the rest of the password names together with the host.
pub url_unescaped :
    (user before behind host data_base : List ℕ)
    → of_db_info (record {
      host_name = host;
      user_name = user;
      password = before ++ 64 ∷ behind;
      data_base = data_base;
    })
      ≡ of_db_info (record {
        host_name = behind ++ 64 ∷ host;
        user_name = user;
        password = before;
        data_base = data_base;
      })
unfolding of_db_info
url_unescaped user before behind host data_base =
    ap (λ rest. record { url_text = mysqlx_prefix ++ (user ++ 58 ∷ rest); schema_text = data_base })
      (append_assoc before (64 ∷ behind) (64 ∷ host))
