-- ===== src/Json.antt =====
-- JSON as encoding/json reads and writes it, seen as documents: the layout of the text is forgotten.
use mactainer.Base.{ℕ, String, Bool, List, []}
use mactainer.Base.Int.{ℤ}

pub data Number : Type 0 where
  int : ℤ → Number
  fraction : String → Number  -- any literal that is no integer

mutual
  pub data Json : Type 0 where
    null : Json
    bool : Bool → Json
    num : Number → Json
    str : String → Json
    arr : Items → Json
    obj : Members → Json

  pub data Items : Type 0 where
    end : Items
    item : Json → Items → Items

  pub data Members : Type 0 where
    close : Members
    member : String → Json → Members → Members

-- What a file or a `[]byte` holds: the text of a JSON document, or any other bytes.
pub data Content : Type 0 where
  json : Json → Content
  bytes : List ℕ → Content

abbrev pub empty : Content
empty = bytes []
