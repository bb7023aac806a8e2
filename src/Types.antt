-- ===== src/Types.antt =====
-- types.go: the messages of a conversation, and the texts and tools that a message can carry.
use harmony_go.Prelude.{Bool, List, Option, Bytes, Map, codes}

-- A role is a Go string; the well-known ones have names.
abbrev pub Role : Type 0
Role = Bytes

abbrev pub role_user : Role
role_user = codes "user"

abbrev pub role_assistant : Role
role_assistant = codes "assistant"

abbrev pub role_system : Role
role_system = codes "system"

abbrev pub role_developer : Role
role_developer = codes "developer"

abbrev pub role_tool : Role
role_tool = codes "tool"

pub record Author : Type 0 where
  pub role : Role
  pub name : Bytes

pub record ChannelConfig : Type 0 where
  pub valid_channels : List Bytes
  pub channel_required : Bool

-- The parameters are the bytes of a JSON document; the cache of their parsed form is left out.
pub record ToolDescription : Type 0 where
  pub name : Bytes
  pub description : Bytes
  pub parameters : Bytes

pub record ToolNamespaceConfig : Type 0 where
  pub name : Bytes
  pub description : Option Bytes
  pub tools : List ToolDescription

-- A nil map is an empty one: the code only reads and measures it.
pub record SystemContent : Type 0 where
  pub model_identity : Option Bytes
  pub reasoning_effort : Option Bytes
  pub tools : Map Bytes ToolNamespaceConfig
  pub conversation_start_date : Option Bytes
  pub knowledge_cutoff : Option Bytes
  pub channel_config : Option ChannelConfig

pub record DeveloperContent : Type 0 where
  pub instructions : Option Bytes
  pub tools : Map Bytes ToolNamespaceConfig

abbrev pub content_text : Bytes
content_text = codes "text"

abbrev pub content_system : Bytes
content_system = codes "system_content"

abbrev pub content_developer : Bytes
content_developer = codes "developer_content"

-- `kind` is the field `Type`.
pub record Content : Type 0 where
  pub kind : Bytes
  pub text : Bytes
  pub system : Option SystemContent
  pub developer : Option DeveloperContent

pub record Message : Type 0 where
  pub author : Author
  pub recipient : Bytes
  pub content : List Content
  pub channel : Bytes
  pub content_type : Bytes

pub record Conversation : Type 0 where
  pub messages : List Message
