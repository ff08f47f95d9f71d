-- ===== src/Form/Field.antt =====
-- A form field as the validators of static/js/custom.js see it: its attributes, its two classes
-- and the messages of the `.field-error` elements in its container, in document order. Each field
-- has a container of its own.
use centos_info_collect.Base.{Bool, Option, List, Text}

pub record Field : Type 0 where
  pub value : Text
  pub required : Bool
  pub type : Text
  pub rules : Option Text
  pub valid : Bool
  pub invalid : Bool
  pub errors : List Text
