-- ===== src/Protocol/Converter/Types.antt =====
-- pkg/protocol/converter.go: the processors of the converter and `MessageRegistry`. A processor, and a
-- type of the package reflect, is an opaque number. The two halves of a key share no bit, so that `|`
-- is their sum.
use mmo_server.Common.{
  ℕ, ◌+◌, ◌*◌, ◌^◌, [], ◌∷◌, ◌++◌, Option, none, some, Str, Dict, str_key, nat_key, lookup, insert,
}

abbrev pub make_processor_key : ℕ → ℕ → ℕ
make_processor_key service_type message_type = service_type * 2 ^ 16 + message_type

abbrev pub Processors : Type 0
Processors = Dict ℕ ℕ

-- `RegisterMessageType` of the converter.
unfoldable pub register_processor : Processors → ℕ → ℕ → ℕ → Processors
register_processor m service_type message_type processor =
    insert (make_processor_key service_type message_type) processor m

unfoldable pub get_processor : Processors → ℕ → ℕ → Option ℕ
get_processor m service_type message_type = lookup (make_processor_key service_type message_type) m

pub record MessageTypeInfo : Type 0 where
  pub service_type : ℕ
  pub message_type : ℕ
  pub service_name : Str
  pub message_name : Str
  pub request_type : Option ℕ
  pub response_type : Option ℕ

pub record MessageRegistry : Type 0 where
  pub type_info_by_id : Dict ℕ MessageTypeInfo
  pub type_info_by_name : Dict Str MessageTypeInfo
  pub type_info_by_req_type : Dict ℕ MessageTypeInfo

abbrev pub new_message_registry : MessageRegistry
new_message_registry = record {
  type_info_by_id = [];
  type_info_by_name = [];
  type_info_by_req_type = [];
}

abbrev pub full_name : MessageTypeInfo → Str
full_name info = info.service_name ++ (b'.' ∷ info.message_name)

abbrev by_request_type :
    MessageTypeInfo → Option ℕ → Dict ℕ MessageTypeInfo → Dict ℕ MessageTypeInfo
by_request_type info none m = m
by_request_type info (some type) m = insert type info m

unfoldable pub register_message_type : MessageRegistry → MessageTypeInfo → MessageRegistry
register_message_type r info = record {
  type_info_by_id =
      insert (make_processor_key info.service_type info.message_type) info r.type_info_by_id;
  type_info_by_name = insert (full_name info) info r.type_info_by_name;
  type_info_by_req_type = by_request_type info info.request_type r.type_info_by_req_type;
}

abbrev pub get_type_info_by_id : MessageRegistry → ℕ → ℕ → Option MessageTypeInfo
get_type_info_by_id r service_type message_type =
    lookup (make_processor_key service_type message_type) r.type_info_by_id

abbrev pub get_type_info_by_name : MessageRegistry → Str → Option MessageTypeInfo
get_type_info_by_name r name = lookup name r.type_info_by_name

abbrev pub get_type_info_by_request_type : MessageRegistry → ℕ → Option MessageTypeInfo
get_type_info_by_request_type r type = lookup type r.type_info_by_req_type
