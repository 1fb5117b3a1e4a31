-- ===== src/Play/JoinGame/Layout.antt =====
-- proto/packets/play/join_game.go: the fields of the join game packet that the lobby sends, in order.
use lazygate.Prelude.{
  false, [], ◌∷◌, ◌++◌, Bytes, codes, ◌≡◌, refl, sym, ◌∙◌, append_assoc, append-nil,
}
use lazygate.Proto.VarInt.{encode_var_int}
use lazygate.Proto.Writer.{
  write_bool, string_bytes, write_u8, write_uint32, write_var_int, big_endian64,
}
use lazygate.Nbt.Writer.{write_compound_tag}
use lazygate.Play.JoinGame.Fields.{write_names-append, write_bool-append}
use lazygate.Play.Lobby.{
  JoinGameParams, default_world_names, lobby_name, write_names, write_opening, write_flags,
  shown_distance, lobby_join_game_data_old, lobby_join_game_data_v1_20_1,
}

pub opening_layout :
    (p : JoinGameParams) (r : Bytes)
    → write_opening p ++ r
      ≡ 0
        ∷ 0
        ∷ 0
        ∷ 0
        ∷ (write_bool [] p.hardcore
            ++ (3
                ∷ 255
                ∷ (encode_var_int 3
                    ++ (write_names [] default_world_names
                        ++ (write_compound_tag p.dimension_codec ++ r)))))
opening_layout p r =
    let start = write_bool (write_uint32 [] 0) p.hardcore in
    let after = write_names [] default_world_names ++ (write_compound_tag p.dimension_codec ++ r) in
    append_assoc
      (write_names (write_var_int (write_u8 (write_u8 start 3) 0xff) 3) default_world_names)
      (write_compound_tag p.dimension_codec) r
    ∙ write_names-append (write_var_int (write_u8 (write_u8 start 3) 0xff) 3) default_world_names
        (write_compound_tag p.dimension_codec ++ r)
    ∙ append_assoc (write_u8 (write_u8 start 3) 0xff) (encode_var_int 3) after
    ∙ append_assoc (write_u8 start 3) (0xff ∷ []) (encode_var_int 3 ++ after)
    ∙ append_assoc start (3 ∷ []) (0xff ∷ (encode_var_int 3 ++ after))
    ∙ write_bool-append (write_uint32 [] 0) p.hardcore (3 ∷ 255 ∷ (encode_var_int 3 ++ after))

unfoldable pub flags_bytes : JoinGameParams → Bytes → Bytes
flags_bytes p r =
    write_bool [] p.reduced_debug_info
    ++ (write_bool [] p.enable_respawn_screen
        ++ (write_bool [] p.is_debug ++ (write_bool [] p.is_flat ++ r)))

flags_layout :
    (w : Bytes) (p : JoinGameParams) (r : Bytes) → write_flags w p ++ r ≡ w ++ flags_bytes p r
unfolding flags_bytes
flags_layout w p r =
    let w₂ = write_bool w p.reduced_debug_info in
    let w₃ = write_bool w₂ p.enable_respawn_screen in
    let flat = write_bool [] p.is_flat ++ r in
    let debug = write_bool [] p.is_debug ++ flat in
    write_bool-append (write_bool w₃ p.is_debug) p.is_flat r
    ∙ write_bool-append w₃ p.is_debug flat
    ∙ write_bool-append w₂ p.enable_respawn_screen debug
    ∙ write_bool-append w p.reduced_debug_info (write_bool [] p.enable_respawn_screen ++ debug)

pub old_layout :
    (p : JoinGameParams)
    → lobby_join_game_data_old p
      ≡ write_opening p
        ++ (write_compound_tag p.dimension
            ++ (string_bytes lobby_name
                ++ (big_endian64 0
                    ++ (encode_var_int p.max_players
                        ++ (encode_var_int p.view_distance ++ flags_bytes p [])))))
old_layout p =
    sym (append-nil (lobby_join_game_data_old p)) ∙ flags_layout _ p [] ∙ simp append_assoc refl

pub new_layout :
    (p : JoinGameParams)
    → lobby_join_game_data_v1_20_1 p
      ≡ write_opening p
        ++ (string_bytes (codes "minecraft:overworld")
            ++ (string_bytes lobby_name
                ++ (big_endian64 0
                    ++ (encode_var_int p.max_players
                        ++ (encode_var_int p.view_distance
                            ++ (encode_var_int (shown_distance p)
                                ++ flags_bytes p (write_bool [] false ++ encode_var_int 0)))))))
new_layout p =
    append_assoc _ (write_bool [] false) (encode_var_int 0)
    ∙ flags_layout _ p (write_bool [] false ++ encode_var_int 0)
    ∙ simp append_assoc refl
