-- ===== src/Config/Given.antt =====
-- A configuration that is given to the server as a value: WithInstallConfig of
-- witchcraft/witchcraft.go, and the providers of the key of encrypted values, witchcraft/ecv.go.
use witchcraft_go_server.Base.{◌⊎◌, inl, inr, Option, none, some, String}

-- What os.ReadFile answers.
pub data FileRead (Err : Type 0) : Type 0 where
  contents : String → FileRead Err
  not_exist : Err → FileRead Err
  read_failed : Err → FileRead Err

pub data KeyError (Err : Type 0) : Type 0 where
  does_not_exist failed_to_read failed_to_create : Err → KeyError Err

module _ {Key Err : Type 0} where
  -- ECVKeyFromStatic; `none` is the nil key.
  abbrev pub ecv_key_from_static : Option Key → KeyError Err ⊎ Option Key
  ecv_key_from_static kwt = inr kwt

  -- ECVKeyNoOp
  abbrev pub ecv_key_no_op : KeyError Err ⊎ Option Key
  ecv_key_no_op = ecv_key_from_static none

  -- ECVKeyFromFile, from what reading the file answers; `parse` is NewKeyWithType.
  unfoldable pub ecv_key_from_file : (String → Err ⊎ Key) → FileRead Err → KeyError Err ⊎ Option Key
  ecv_key_from_file parse (not_exist e) = inl (does_not_exist e)
  ecv_key_from_file parse (read_failed e) = inl (failed_to_read e)
  ecv_key_from_file parse (contents s) = elim (parse s) [
    | inl e ↦ inl (failed_to_create e)
    | inr key ↦ inr (some key)
  ]

-- WithInstallConfig: the bytes that its provider answers; `marshal` is yaml.Marshal.
unfoldable pub with_install_config : {I Bytes Err : Type 0} → (I → Err ⊎ Bytes) → I → Err ⊎ Bytes
with_install_config marshal cfg = marshal cfg
