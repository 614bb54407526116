-- ===== src/Lib.antt =====
-- LCDd, the lcdproc server. A client connects over a socket, sends lines of text, and thereby
-- makes screens with widgets and reserves keys; the server shows one screen at a time on the
-- display and rotates through them. This library models parts of that server.
--
-- LinkedList (shared/LL.c, shared/LL.h) is the list that the server keeps everything in:
-- clients, screens, widgets, key reservations and menu items. `LinkedList.Store` is its memory:
-- nodes at addresses, field by field, with `head` and `tail` at fixed addresses; access to an
-- address that holds no node is a fault. `LinkedList` and `LinkedList.Reorder` have the
-- operations of LL.c, one definition for each function. `LinkedList.Chain`, `Edit`, `Shape` and
-- `Ends` say what sequence a memory stands for; `Queue` and `Remove` state the operations on
-- that sequence. `LinkedList.Sequence` is `LL_Sort` on the sequence of data alone, as the screen
-- list calls it, which is not proved to agree with the one on the nodes, and
-- `LinkedList.Sequence.Order` the order that it leaves.
--
-- Parser (server/parse.c) splits a line into arguments. `Parser` is the state machine of
-- `parse_message` as it stands, with its array of pointers and its character buffer, where a
-- read or write out of bounds is a fault; `Parser.Grammar` describes the same language with no
-- buffer and no machine. `Parser.Buffer`, `Moves`, `Rounds` and `Refine` lead from one to the
-- other.
--
-- ScreenList (server/screenlist.c, with parts of server/client.c and server/screen.c) keeps the
-- list of screens and the one on display. A screen is an address, and reading a screen that was
-- freed is a fault. `ScreenList` has the list's operations, `ScreenList.Process` the round of
-- each frame. `ScreenList.Notices` is about what clients are told, `Top`, `Going` and `Frame`
-- about one round, `Back` and `Removal` about the other operations, `Expiry` about a screen
-- whose time is over, and `Memory` about what the operations leave alone.
--
-- Widgets (server/widget.c, with the widgets of server/screen.c) are what a screen shows.
-- `Widgets` has the lists of widgets, with those of the frames in them, and the ways to a widget
-- that stand for pointers; `Widgets.Names` the names of types and icons. `Widgets.Search` is
-- about finding a widget, `Added` and `Written` about adding one and writing to one.
--
-- Input (server/input.c, with `is_menu_key` of server/menuscreens.c and `server_msg` of
-- server/render.c) decides which client gets a key. `Input` has the reservations and
-- `handle_input`; `Input.Exclusive`, `Released` and `Total` are about them. A key for the menu
-- is only recorded there; what the menu does with it is an event of its own in System.
--
-- Commands (server/commands) is what a line of a client does. `Commands` has the state that the
-- commands work on: the rotation of ScreenList, the clients, the reservations of Input and what
-- was sent. `Commands.ClientCommands`, `ScreenCommands`, `WidgetCommands` and `ServerCommands`
-- have the command functions, and `Commands.Dispatch` the table of commands and `parse_message`,
-- which calls the parser and then the command; the functions of menu_commands.c are an argument
-- there. `Commands.Guards`, `Adding`, `Setting`, `Deleting`, `WidgetSetting` and `WidgetAdding`
-- state what holds of them, `Sound` what they keep, `Finding` and `Stored` what they share,
-- `Meaning` is a table of the arguments of widget_set and `Rules` one of the options of
-- screen_set, against which their cases are held, and `Options` is about screen_set as a whole.
-- What a client sends and gets is bytes without the terminator; an answer is kept whole where
-- the code cuts it to a buffer.
--
-- Clients (server/clients.c, with the message queue of server/client.c and
-- `parse_all_client_messages` of server/parse.c) is the way from the bytes of a client to its
-- commands. `Clients` has the list and the queues, `Clients.Sending` follows a client's text
-- through the queue and the parser, `Clients.Queue` is about the commands of all clients
-- together.
--
-- `Clients.Lifetime` has client_create and client_destroy.
--
-- System (server/main.c, server/serverscreens.c, server/menuscreens.c) puts the parts together.
-- `System.ServerScreen` is the screen that the server makes for itself, `System.MenuScreen` the
-- screen of the menu with the keys that menuscreens_init reserves and what
-- menuscreen_switch_item does to it, in the order of main. `System` has the events of the main
-- loop as steps from one state to the next, and the states that they reach. `System.Live` says
-- what holds of the server between two events, with `Housed` for its screens. `ClientLines`,
-- `ScreenLines` and `Lines` go through the commands, `Sorted`, `Frames` and `Display` through a
-- frame, `Keys` through the keys, `Destroyed`, `Leaving` and `Clients` through the end of a
-- client; `Events` and `Progress` collect what follows for the states that can be reached.
-- `System.Safety` names the lines that run into a known fault; such lines are no steps. Nor is a
-- frame in which the current screen expires, since it reads the screen that it has freed.
--
-- Menu (server/menuitem.c, server/menu.c) is the menu that the keys move in. `Menu` has the
-- tokens of keys and the answers of an item, `Menu.Slider`, `Numeric`, `Alpha` and `Ip` an item
-- each, with the array that is edited in `Menu.Editor`, and `Menu.Navigation` a menu with its
-- items. `Menu.Presses` is a sequence of keys; `Sliding`, `InRange` with `Printed`, `Allowed`
-- with `Characters`, `Refilled`, and `Selected` with `Values` and `Rows` say what such a
-- sequence keeps, `Overflow` what an IP item does to a value that is no address, and `Shown`
-- which part of it is shown. Whether a text is an address is an argument, as the system's answer
-- to it is. The part stands alone so far: System knows only whether an item is active, and takes
-- what it draws as an argument; which item it is, and the commands that make items, are not
-- modelled.
--
-- Render (server/render.c) has the text that the scrollers show at a time, with divisions by 0
-- and reads behind the text as faults; `Render.Scrollers` and `Rows` are about that window.
--
-- Bounds: the loop of the parser has fuel for two more rounds than the line has characters, the
-- loops of the IP editor for two more than the position and than the value has characters. The
-- loops over a list's nodes have fuel as an argument, and their theorems ask for more than there
-- are nodes. Numbers are natural numbers or integers without a bound, save the `short` fields of
-- a screen and the `int`s that `output`, numeric and IP items store, which wrap, and the sums of
-- a slider and the products of a scroller, which are faults out of range. A number is printed
-- with ten digits at most, as many as an `int` has.
--
-- Not modelled: the drivers, sockets and configuration, which are input and output; the rest of
-- the menu, which is the active item, the commands and the drawing, and of the rendering. A
-- failed allocation is modelled only where the address is an argument (`LL_AddNode`,
-- `screen_add`). See the comments at the head of each file for what a definition leaves out.
pub mod Clients
pub mod Commands
pub mod Input
pub mod LinkedList
pub mod Menu
pub mod Parser
pub mod Prelude
pub mod Render
pub mod ScreenList
pub mod Widgets
pub mod System
