-- ===== src/Rpc/Messages.antt =====
-- The messages of packages/core/src/rpc.ts. A JSON value is known by its text.
use agent_phonon.Base.{ℕ, Bool, true, false, List, [], ◌∷◌, Option, none, some}
use agent_phonon.Js.Text.{ℤ, negsuc, codes}

abbrev pub Json : Type 0
Json = List ℕ

-- The field `id` of a message: it may be missing or null.
pub data IdField : Type 0 where
  absent : IdField
  null : IdField
  num : ℕ → IdField
  text : List ℕ → IdField

pub data ErrorField : Type 0 where
  absent : ErrorField
  falsy : ErrorField
  error : Json → ErrorField

-- The fields of what is thrown that the code reads.
pub record Thrown : Type 0 where
  pub message : Option (List ℕ)
  pub app_code : Option (List ℕ)

pub record ErrorReply : Type 0 where
  pub code : ℤ
  pub message : List ℕ
  pub app_code : Option (List ℕ)

pub data Reply : Type 0 where
  success : Json → Reply
  failure : ErrorReply → Reply

pub data Wire : Type 0 where
  wire_request : ℕ → List ℕ → Json → Wire
  wire_notification : List ℕ → Json → Wire
  wire_reply : IdField → Reply → Wire

-- An object that `JSON.parse` returns, by the fields that `handle` reads. `result` is none where
-- it is undefined.
pub record Incoming : Type 0 where
  pub has_result_or_error : Bool
  pub has_id : Bool
  pub id : IdField
  pub result : Option Json
  pub error : ErrorField
  pub method : Option (List ℕ)
  pub params : Json

-- `in` throws on a value that is not an object.
pub data Parsed : Type 0 where
  not_json : Parsed
  primitive : Parsed
  fields : Incoming → Parsed

-- What `send` throws for a message, if it throws.
abbrev pub Send : Type 0
Send = Wire → Option Thrown

abbrev pub is_notification : IdField → Bool
is_notification IdField.absent = true
is_notification IdField.null = true
is_notification (num _) = false
is_notification (text _) = false

abbrev pub parse_error : Reply
parse_error =
    Reply.failure (record { code = negsuc 32699; message = codes "parse error"; app_code = none })

abbrev pub message_or_default : Option (List ℕ) → List ℕ
message_or_default none = codes "internal error"
message_or_default (some m) = m

-- An empty application code is left out.
abbrev pub truthy_code : Option (List ℕ) → Option (List ℕ)
truthy_code none = none
truthy_code (some []) = none
truthy_code (some (c ∷ code)) = some (c ∷ code)

abbrev pub failed_reply : Thrown → Reply
failed_reply thrown = Reply.failure (record {
  code = negsuc 31999;
  message = message_or_default thrown.message;
  app_code = truthy_code thrown.app_code;
})
