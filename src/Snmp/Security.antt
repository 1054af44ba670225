-- ===== src/Snmp/Security.antt =====
-- `getSecurityParams` of snmpclient/snmp.go.
use servone.Prelude.{String, str_eq, if◌then◌else◌}

pub data AuthProtocol : Type 0 where
  no_auth md5 sha sha224 sha256 sha384 sha512 : AuthProtocol

pub data PrivProtocol : Type 0 where
  no_priv des aes aes192 aes256 aes192_c aes256_c : PrivProtocol

-- `gosnmp.UsmSecurityParameters`.
pub record UsmSecurityParameters : Type 0 where
  pub user_name : String
  pub authentication_protocol : AuthProtocol
  pub authentication_passphrase : String
  pub privacy_protocol : PrivProtocol
  pub privacy_passphrase : String

-- The first `switch`; no case leaves `NoAuth`.
unfoldable pub auth_protocol_of : String → AuthProtocol
auth_protocol_of name =
    if str_eq name "MD5"
    then md5
    else if str_eq name "SHA"
    then sha
    else if str_eq name "SHA224"
    then sha224
    else if str_eq name "SHA256"
    then sha256
    else if str_eq name "SHA384"
    then sha384
    else if str_eq name "SHA512"
    then sha512
    else no_auth

-- The second `switch`; no case leaves `NoPriv`.
unfoldable pub priv_protocol_of : String → PrivProtocol
priv_protocol_of name =
    if str_eq name "DES"
    then des
    else if str_eq name "AES"
    then aes
    else if str_eq name "AES192"
    then aes192
    else if str_eq name "AES256"
    then aes256
    else if str_eq name "AES192C"
    then aes192_c
    else if str_eq name "AES256C"
    then aes256_c
    else no_priv

unfoldable pub get_security_params :
    String → String → String → String → String → UsmSecurityParameters
unfolding auth_protocol_of priv_protocol_of
get_security_params username auth_protocol auth_passphrase priv_protocol priv_passphrase = record {
  user_name = username;
  authentication_protocol = auth_protocol_of auth_protocol;
  authentication_passphrase = auth_passphrase;
  privacy_protocol = priv_protocol_of priv_protocol;
  privacy_passphrase = priv_passphrase;
}
