-- ===== src/Console/PortNames/From0.antt =====
-- The cases of getPortName (ConsoleTest/portNames.cpp) for the ports from 0 to 156.
use Prim.Native.String.{String}
use watchfirewall.Prelude.{ℕ, List, [], ◌∷◌}

unfoldable pub names_from_0 : List (ℕ × String)
names_from_0 =
    (0, "Shirt Pocket netTunes. Shirt Pocket launchTunes.")
    ∷ (1, "TCPMUX, TCP Port Service Multiplexer.")
    ∷ (2, "Management Utility.")
    ∷ (3, "Compression Process.")
    ∷ (5, "Remote Job Entry.")
    ∷ (7, "Echo.")
    ∷ (9, "Discard.")
    ∷ (11, "SYSTAT.")
    ∷ (13, "Daytime.")
    ∷ (15, "[was netstat].")
    ∷ (17, "Quote, Quote of the Day.")
    ∷ (18, "RWP, Remote Write Protocol. Send, Message Send Protocol.")
    ∷ (19, "Chargen, Character Generator Protocol.")
    ∷ (20, "FTP, File Transfer Protocol, data.")
    ∷ (21, "FTP, File Transfer Protocol, control.")
    ∷ (22, "SSH.")
    ∷ (23, "Telnet.")
    ∷ (24, "Any private mail system.")
    ∷ (25, "SMTP, Simple Mail Transfer Protocol.")
    ∷ (27, "NSW User System FE.")
    ∷ (29, "MSG ICP.")
    ∷ (31, "MSG Authentication.")
    ∷ (33, "Display Support Protocol.")
    ∷ (35, "Any private printer server.")
    ∷ (37, "Time, Time Protocol.")
    ∷ (38, "RAP, Internet Route Access Protocol.")
    ∷ (39, "RLP, Resource Location Protocol.")
    ∷ (41, "Graphics.")
    ∷ (42, "Internet Name Server.")
    ∷ (43, "Whois.")
    ∷ (44, "MPM FLAGS Protocol.")
    ∷ (45, "Internet Message Protocol.")
    ∷ (46, "MPM [default send].")
    ∷ (47, "NI FTP.")
    ∷ (48, "Digital Audit Daemon.")
    ∷ (49, "TACACS. TACACS+.")
    ∷ (50, "RMCP, Remote Mail Checking Protocol.")
    ∷ (51, "IMP Logical Address Maintenance.")
    ∷ (52, "XNS Time Protocol.")
    ∷ (53, "DNS, Domain Name System.")
    ∷ (54, "XNS Clearinghouse.")
    ∷ (55, "ISI Graphics Language.")
    ∷ (56, "XNS Authentication.")
    ∷ (57, "MTP, Mail Transfer Protocol.")
    ∷ (58, "XNS Mail.")
    ∷ (59, "NFILE.")
    ∷ (61, "NI MAIL.")
    ∷ (62, "ACA Services.")
    ∷ (63, "Whois++.")
    ∷ (64, "Communications Integrator (CI).")
    ∷ (65, "TACACS-Database Service.")
    ∷ (66, "Oracle SQL*NET.")
    ∷ (67, "BOOTP, Bootstrap Protocol, server.")
    ∷ (68, "BOOTP, Bootstrap Protocol, client.")
    ∷ (69, "TFTP, Trivial File Transfer Protocol.")
    ∷ (70, "Gopher.")
    ∷ (71, "Remote Job Service.")
    ∷ (72, "Remote Job Service.")
    ∷ (73, "Remote Job Service.")
    ∷ (74, "Remote Job Service.")
    ∷ (75, "Any private dial out service.")
    ∷ (76, "Distributed External Object Store.")
    ∷ (77, "Any private RJE service.")
    ∷ (78, "vettcp.")
    ∷ (79, "Finger.")
    ∷ (80, "HTTP, HyperText Transfer Protocol.")
    ∷ (81, "HOSTS2 Name Server.")
    ∷ (82, "XFER Utility.")
    ∷ (83, "MIT ML Device.")
    ∷ (84, "Common Trace Facility.")
    ∷ (85, "MIT ML Device.")
    ∷ (86, "Micro Focus Cobol.")
    ∷ (87, "Any private terminal link.")
    ∷ (88, "Kerberos.")
    ∷ (89, "SU/MIT Telnet Gateway.")
    ∷ (90, "Is being used unofficially by Pointcast. DNSIX Securit Attribute Token Map.")
    ∷ (91, "MIT Dover Spooler.")
    ∷ (92, "Network Printing Protocol.")
    ∷ (93, "Device Control Protocol.")
    ∷ (94, "Tivoli Object Dispatcher.")
    ∷ (95, "SUPDUP.")
    ∷ (96, "DIXIE.")
    ∷ (97, "Swift Remote Virtual File Protocol.")
    ∷ (98, "TAC News.")
    ∷ (99, "Metagram Relay.")
    ∷ (100, "[unauthorized use]")
    ∷ (101, "HOSTNAME.")
    ∷ (102, "TP0 over TCP.")
    ∷ (103, "Genesis Point-to-Point Trans Net.")
    ∷ (104, "ACR-NEMA Digital Imag. &amp; Comm. 300.")
    ∷ (105, "Ph. Mailbox Name Nameserver.")
    ∷ (106, "3COM-TSMUX.")
    ∷ (107, "Remote  Telnet Service.")
    ∷ (108, "SNA Gateway Access Server.")
    ∷ (109, "POP, Post Office Protocol, version 2.")
    ∷ (110, "POP, Post Office Protocol, version 3.")
    ∷ (111, "Portmapper.")
    ∷ (112, "McIDAS Data Transmission Protocol.")
    ∷ (113, "Identification Protocol.")
    ∷ (115, "SFTP, Simple File Transfer Protocol.")
    ∷ (116, "ANSA REX Notify.")
    ∷ (117, "UUCP, Unix To Unix Copy.")
    ∷ (118, "SQL Services.")
    ∷ (119, "NNTP, Network News Transfer Protocol.")
    ∷ (120, "CFDP, Coherent File Distribution Protocol.")
    ∷ (121, "Encore Expedited Remote Pro.Call.")
    ∷ (122, "SMAKYNET.")
    ∷ (123, "NTP, Network Time Protocol.")
    ∷ (124, "ANSA REX Trader.")
    ∷ (125, "Locus PC-Interface Net Map Serv.")
    ∷ (126, "Unisys Unitary Login.")
    ∷ (127, "Locus PC-Interface Conn Server.")
    ∷ (128, "GSS X License Verification.")
    ∷ (129, "PWDGEN, Password Generator Protocol.")
    ∷ (130, "cisco FNATIVE.")
    ∷ (131, "cisco TNATIVE.")
    ∷ (132, "cisco SYSMAINT.")
    ∷ (133, "STATSRV, Statistics Server.")
    ∷ (134, "INGRES-NET Service.")
    ∷ (135, "DCE endpoint resolution.")
    ∷ (136, "PROFILE Naming System.")
    ∷ (137, "NETBIOS Name Service.")
    ∷ (138, "NETBIOS Datagram Service.")
    ∷ (139, "NETBIOS Session Service.")
    ∷ (140, "EMFIS Data Service.")
    ∷ (141, "EMFIS Control Service.")
    ∷ (142, "Britton-Lee IDM.")
    ∷ (143, "IMAP, Interactive Mail Access Protocol.")
    ∷ (144, "Universal Management Architecture.")
    ∷ (145, "UAAC Protocol.")
    ∷ (146, "TP0 bridge between TCP and X.25.")
    ∷ (147, "ISO-IP.")
    ∷ (148, "Jargon.")
    ∷ (149, "AED 512 Emulation Service.")
    ∷ (150, "SQL-NET.")
    ∷ (151, "HEMS.")
    ∷ (152, "BFTP, Background File Transfer Program.")
    ∷ (153, "SGMP, Simple Gateway Monitoring Protocol.")
    ∷ (154, "NETSC.")
    ∷ (155, "NETSC.")
    ∷ (156, "SQL Service.")
    ∷ []
