-- ===== src/Modbus/Error.antt =====
-- `ModbusError` and the other exceptions of src/services/modbus_tools.py, with the messages that
-- the code searches. The text of an operating system's error, the printed time limit and the name
-- of a value are given by what the program does not implement.
pub mod Exceptions
use rpinode.Text.{Text, codes, contains, decimal, hex_digit}
use rpinode.Prelude.{ℕ, zero, suc, ◌/◌, ◌%◌, Bool, List, [], ◌∷◌, ◌++◌, ◌==◌, if◌then◌else◌}

pub data ModbusError : Type 0 where
  closed bad_mbap empty_reply rtu_too_short no_serial_link : ModbusError
  bad_register_function bad_bit_function inconsistent_reply failed : ModbusError
  exception : ℕ → ModbusError
  timed_out : Text → ModbusError
  no_connection : Text → ModbusError
  bad_crc : ℕ → ℕ → ModbusError
  bad_count : ℕ → ModbusError
  wrapped : Text → ModbusError

-- What a call raises: a `ModbusError`, an `IndexError` or a `struct.error`.
pub data Exc : Type 0 where
  modbus : ModbusError → Exc
  index_error struct_error : Exc

pub data Result {ℓ} (A : Type ℓ) : Type ℓ where
  ok : A → Result A
  err : Exc → Result A

infixl 5 ◌>>=◌
abbrev pub ◌>>=◌ {ℓ κ} : {A : Type ℓ} {B : Type κ} → Result A → (A → Result B) → Result B
ok a >>= f = f a
err e >>= f = err e

-- `EXCEPTION_NAMES.get(code, f"Code exception {code}")`
unfoldable pub exception_name : ℕ → Text
exception_name code =
    if code == 1
    then codes "Fonction illégale (01)"
    else if code == 2
    then codes "Adresse de donnée illégale (02)"
    else if code == 3
    then codes "Valeur de donnée illégale (03)"
    else if code == 4
    then codes "Défaillance de l'esclave (04)"
    else if code == 5
    then codes "Acquittement / traitement long (05)"
    else if code == 6
    then codes "Esclave occupé (06)"
    else if code == 8
    then codes "Erreur de parité mémoire (08)"
    else if code == 10
    then codes "Passerelle : chemin indisponible (0A)"
    else if code == 11
    then codes "Passerelle : pas de réponse de la cible (0B)"
    else codes "Code exception " ++ decimal code

-- `{n:04x}` of a number of 16 bits.
abbrev pub hex4 : ℕ → Text
hex4 n =
    hex_digit b'a' (n / 4096 % 16)
    ∷ hex_digit b'a' (n / 256 % 16)
    ∷ hex_digit b'a' (n / 16 % 16)
    ∷ hex_digit b'a' (n % 16)
    ∷ []

-- `str(e)`
unfoldable pub message : ModbusError → Text
message closed = codes "Connexion fermée par la cible (réponse tronquée)."
message bad_mbap = codes "En-tête MBAP invalide."
message empty_reply = codes "Réponse vide."
message rtu_too_short = codes "Réponse RTU trop courte."
message no_serial_link = codes "Liaison série directe (port COM) non encore configurée."
message bad_register_function = codes "Fonction de lecture registre invalide."
message bad_bit_function = codes "Fonction de lecture bit invalide."
message inconsistent_reply = codes "Réponse incohérente (taille des données inattendue)."
message failed = codes "Échec de la transaction Modbus."
message (exception code) = codes "Exception Modbus : " ++ exception_name code
message (timed_out limit) = codes "Délai dépassé (" ++ (limit ++ codes " s) : pas de réponse.")
message (no_connection reason) = codes "Connexion impossible : " ++ reason
message (bad_crc got want) =
    codes "Erreur de contrôle CRC RTU (reçu 0x"
    ++ (hex4 got ++ (codes ", attendu 0x" ++ (hex4 want ++ codes ").")))
message (bad_count most) = codes "Quantité hors limites (1 à " ++ (decimal most ++ codes ").")
message (wrapped reason) = reason

-- `"Exception Modbus" in str(e)`: an answer of the slave itself, which is not asked for again.
unfoldable pub is_exception : ModbusError → Bool
unfolding contains message
is_exception e = contains (codes "Exception Modbus") (message e)

pub data Kind : Type 0 where
  illegal timeout other : Kind

-- `_classify_modbus_error`
unfoldable pub classify_modbus_error : Text → Kind
unfolding contains
classify_modbus_error msg =
    if contains (codes "02") msg
    then illegal
    else if contains (codes "Délai dépassé") msg
    then timeout
    else other
