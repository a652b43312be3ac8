-- ===== src/Agps/Types.antt =====
-- The data of loc_eng_agps.h: events, notifications, subscribers, calls made, the machine's state.
-- An `int` is the 32-bit pattern that it is stored as; a C string is the list of its bytes.
use device_samsung_msm8660_c.Common.{ℕ, Bool, Option, List}

pub data RsrcStatus : Type 0 where
  subscribe unsubscribe granted released denied status_max : RsrcStatus

pub data AgpsType : Type 0 where
  invalid any supl c2k wwan_any wifi : AgpsType

-- `AGpsStatusValue`, as far as the machine sends it.
pub data StatusValue : Type 0 where
  request_data_conn release_data_conn : StatusValue

abbrev pub Text : Type 0
Text = List ℕ

-- The class of a subscriber, with the fields that the class adds.
pub data SubscriberClass : Type 0 where
  bit : SubscriberClass
  atl : (compatible_mode : Bool) → SubscriberClass
  wifi_client : (ssid password : Option Text) (sender_id : ℕ) (is_inactive : Bool) → SubscriberClass

-- `addr` is where the object lies. `ipv6_addr` is the bytes that lie at the place of
-- `BITSubscriber::ipv6Addr`: that field in a `BITSubscriber`, and in an object of another class
-- whatever its memory holds there, since `BITSubscriber::equals` casts its argument unchecked.
pub record Subscriber : Type 0 where
  pub addr : ℕ
  pub id : ℕ
  pub ipv6_addr : List ℕ
  pub subclass : SubscriberClass

pub record Notification : Type 0 where
  pub rcver : Option Subscriber
  pub group_id : ℕ
  pub rsrc_status : RsrcStatus
  pub post_notify_delete : Bool

-- The answers given to a requester by `loc_eng_dmn_conn_loc_api_server_data_conn`.
pub data ConnStatus : Type 0 where
  request_success release_success failure : ConnStatus

-- The `AGpsExtStatus` handed to the servicer; `none` is a field left unwritten.
pub record NifRequest : Type 0 where
  pub type : AgpsType
  pub status : StatusValue
  pub ipv4_addr : Option ℕ
  pub ipv6_addr : Option (List ℕ)
  pub ssid : Text
  pub password : Text

-- The calls that leave the machine. `open_status` and `close_status` are the adapter's
-- `atlOpenStatus` and `atlCloseStatus`; `delete` is a subscriber object destroyed.
pub data Call : Type 0 where
  data_conn : (sender : ℕ) → ConnStatus → Call
  close_status : (handle is_success : ℕ) → Call
  open_status : (handle is_success : ℕ) (apn : Option Text) (bearer : ℕ) (type : AgpsType) → Call
  service : NifRequest → Call
  delete : (addr : ℕ) → Call

pub data State : Type 0 where
  released pending acquired releasing : State

-- `calls` is the calls made so far, the latest first. `next_addr` is the address that the next
-- allocated subscriber gets.
pub record Machine : Type 0 where
  pub type : AgpsType
  pub state : State
  pub subscribers : List Subscriber
  pub apn : Option Text
  pub apn_len : ℕ
  pub bearer : ℕ
  pub enforce_single : Bool
  pub next_addr : ℕ
  pub calls : List Call
