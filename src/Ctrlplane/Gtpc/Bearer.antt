-- ===== src/Ctrlplane/Gtpc/Bearer.antt =====
-- The bearer context of a GTP-C packet (ctrlplane/src/pkt/gtpc_item_func.c): an item that holds items.
pub mod Children
use mixi_pgw.Prelude.{
  ℕ, zero, suc, ◌+◌, ◌-◌, ◌%◌, ◌^◌, leb, ◌==◌, if◌then◌else◌, Option, none, some, List, [], ◌∷◌,
}
use mixi_pgw.Ctrlplane.Gtpc.{Octets, memcpy, put_u16}
use mixi_pgw.Ctrlplane.Gtpc.Items.{octets, item_len}

-- gtpc_bearer_ctx_t: the number of the length field, the children, and where the next one stands.
pub record BearerCtx : Type 0 where
  pub length : ℕ
  pub child : Octets
  pub offset : ℕ

unfoldable pub bearer_ctx_set : BearerCtx
bearer_ctx_set = record { length = 0; child = λ _. 0; offset = 0 }

-- ERR leaves the item as it is.
unfoldable pub bearer_ctx_add_child : BearerCtx → Octets → ℕ → Option BearerCtx
bearer_ctx_add_child item child len =
    if leb 256 (item.offset + len)
    then none
    else some (record {
      length = (item.length + len) % 2 ^ 16;
      child = memcpy item.child item.offset child len;
      offset = (item.offset + len) % 2 ^ 16;
    })

-- The octets of the structure: the common header and the children.
unfoldable pub bearer_ctx_octets : BearerCtx → Octets
bearer_ctx_octets item =
    put_u16 (λ j. if j == 0 then 93 else if leb 4 j then item.child (j - 4) else 0) 1 item.length

unfoldable pub bearer_ctx_length : BearerCtx → ℕ
bearer_ctx_length item = (item.offset + 4) % 2 ^ 16

-- The calls that add an item after the other, each with the length that its header tells.
unfoldable pub add_children : BearerCtx → List (List ℕ) → Option BearerCtx
add_children item [] = some item
add_children item (child ∷ rest) =
    elim (bearer_ctx_add_child item (octets child) (item_len child)) [
      | none ↦ none
      | some after ↦ add_children after rest
    ]
