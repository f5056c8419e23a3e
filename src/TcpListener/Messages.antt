-- ===== src/TcpListener/Messages.antt =====
-- The messages of TCP as src/network_tcp.c prints and reads them.
use ipk_projekt.TcpListener.{
  process_tcp_message, process_tcp_bye_message, process_tcp_err_message, process_tcp_msg_message,
  handle_from_is, process_from_is, after_from, at_from, bye_from,
}
use ipk_projekt.World.{
  Config, World, Prog, print, chat, error_from, ◌>>◌, exit, err_without_from, msg_without_from,
  err_without_is, Output, msg_without_is,
}
use ipk_projekt.Memory.{Bytes}
use ipk_projekt.Base.{
  codes, ◌++◌, All, ◌≡◌, ◌≢◌, length, if◌then◌else◌, ltb, ◌≤◌, exits, exit_success, fault, true,
  arith, take-all, some,
}
use ipk_projekt.Strings.Search.{find_first}
use ipk_projekt.Strings.{strstr, strip_prefix}

-- "MSG FROM %s IS %s" without the line end.
abbrev pub msg_line : Bytes → Bytes → Bytes
msg_line name content = codes "MSG FROM " ++ (name ++ (codes " IS " ++ content))

abbrev pub err_line : Bytes → Bytes → Bytes
err_line name content = codes "ERR FROM " ++ (name ++ (codes " IS " ++ content))

module _ (cfg : Config) (name content : Bytes) (w : World) where
  module _ (no_space : All (λ c. c ≢ 32) name) (short_name : length name ≤ 20)
      (short : length content ≤ 60000) where
    handle_from_is-show :
        (show : Bytes → Bytes → Prog (Unit {0}))
        → handle_from_is show name content w ≡ show name content w
    unfolding handle_from_is
    handle_from_is-show show =
        let fits : ltb (length content) 60001 ≡ true = ground arith in
        rw (fits, take-all 20 name short_name)

    process_from_is-show :
        (no_from no_is : Output) (show : Bytes → Bytes → Prog (Unit {0})) (type : Bytes)
        → ((rest : Bytes)
            → strstr (codes "FROM ") (type ++ (codes "FROM " ++ rest)) ≡ some (type, rest))
        → process_from_is no_from no_is show
            (type ++ (codes "FROM " ++ (name ++ (codes " IS " ++ content))))
            w
          ≡ show name content w
    unfolding process_from_is at_from after_from
    process_from_is-show no_from no_is show type found =
        rw
          (
            found (name ++ (codes " IS " ++ content)),
            find_first 32 (codes "IS ") name content no_space,
          )
          (handle_from_is-show show)

    -- A MSG line is printed; the name and the content are not longer than their arrays, and the name
    -- has no space.
    pub process_msg_line :
        process_tcp_message cfg (msg_line name content) w ≡ print (chat name content) w
    unfolding process_tcp_message process_tcp_msg_message strip_prefix process_from_is
    process_msg_line =
        process_from_is-show msg_without_from msg_without_is (λ n c. print (chat n c))
          (codes "MSG ") (λ rest. find_first 70 (codes "ROM ") (codes "MSG ") rest (omega arith))

    -- An ERR line is printed and ends the process with success: the name has up to 20 characters and
    -- no space, and the content up to 60000 characters.
    pub process_err_line :
        process_tcp_message cfg (err_line name content) w
        ≡ (print (error_from name content) >> exit exit_success) w
    unfolding process_tcp_message process_tcp_err_message strip_prefix process_from_is
    process_err_line =
        process_from_is-show err_without_from err_without_is
          (λ n c. print (error_from n c) >> exit exit_success) (codes "ERR ")
          (λ rest. find_first 70 (codes "ROM ") (codes "ERR ") rest (omega arith))

-- A BYE ends the process with success, unless its name is longer than 20 characters: it is copied past
-- the end of its array.
pub process_bye_line :
    (cfg : Config) (name : Bytes) (w : World)
    → process_tcp_message cfg (codes "BYE FROM " ++ name) w
      ≡ ((if ltb (length name) 21 then exits exit_success else fault), w)
unfolding process_tcp_message process_tcp_bye_message bye_from strstr
process_bye_line cfg name w = ground arith
