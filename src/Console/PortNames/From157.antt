-- ===== src/Console/PortNames/From157.antt =====
-- The cases of getPortName (ConsoleTest/portNames.cpp) for the ports from 157 to 373.
use Prim.Native.String.{String}
use watchfirewall.Prelude.{ℕ, List, [], ◌∷◌}

unfoldable pub names_from_157 : List (ℕ × String)
names_from_157 =
    (157, "KNET/VM Command/Message Protocol.")
    ∷ (158, "DMSP, Distributed Mail Service Protocol.")
    ∷ (159, "NSS-Routing.")
    ∷ (160, "SGMP-TRAPS.")
    ∷ (161, "SNMP, Simple Network Management Protocol.")
    ∷ (162, "SNMP, Simple Network Management Protocol traps.")
    ∷ (163, "CMIP/TCP Manager.")
    ∷ (164, "CMIP/TCP Agent.")
    ∷ (165, "Xerox. ")
    ∷ (166, "Sirius Systems. ")
    ∷ (167, "NAMP. ")
    ∷ (168, "RSVD. ")
    ∷ (169, "SEND.")
    ∷ (170, "Network PostScript.")
    ∷ (171, "Network Innovations Multiplex.")
    ∷ (172, "Network Innovations CL/1. ")
    ∷ (173, "Xyplex.")
    ∷ (174, "MAILQ. ")
    ∷ (175, "VMNET. ")
    ∷ (176, "GENRAD-MUX.")
    ∷ (177, "XDMCP, X Display Manager Control Protocol. ")
    ∷ (178, "NextStep Window Server. ")
    ∷ (179, "BGP, Border Gateway Protocol.")
    ∷ (180, "Intergraph.")
    ∷ (181, "Unify. ")
    ∷ (182, "Unisys Audit SITP. ")
    ∷ (183, "OCBinder. ")
    ∷ (184, "OCServer. ")
    ∷ (185, "Knowbot Information Service.")
    ∷ (186, "KIS Protocol. ")
    ∷ (187, "Application Communication Interface.")
    ∷ (188, "Plus Five's MUMPS. ")
    ∷ (189, "Queued File Transport. ")
    ∷ (190, "Gateway Access Control Protocol.")
    ∷ (191, "Prospero Directory Service. ")
    ∷ (192, "OSU Network Monitoring System. ")
    ∷ (193, "Spider Remote Monitoring Protocol. ")
    ∷ (194, "Internet Relay Chat Protocol.")
    ∷ (195, "DNSIX Network Level Module Audit.")
    ∷ (196, "DNSIX Session Mgt Module Audit Redir.")
    ∷ (197, "Directory Location Service.")
    ∷ (198, "Directory Location Service Monitor.")
    ∷ (199, "SMUX.")
    ∷ (200, "IBM System Resource Controller.")
    ∷ (201, "AppleTalk Routing Maintenance.")
    ∷ (202, "AppleTalk Name Binding.")
    ∷ (203, "AppleTalk Unused. ")
    ∷ (204, "AppleTalk Echo. ")
    ∷ (205, "AppleTalk Unused. ")
    ∷ (206, "AppleTalk Zone Information. ")
    ∷ (207, "AppleTalk Unused. ")
    ∷ (208, "AppleTalk Unused. ")
    ∷ (209, "The Quick Mail Transfer Protocol.")
    ∷ (210, "Z39.50.")
    ∷ (211, "Texas Instruments 914C/G Terminal.")
    ∷ (212, "ATEXSSTR.")
    ∷ (213, "IPX.")
    ∷ (214, "VM PWSCS.")
    ∷ (215, "Insignia Solutions.")
    ∷ (216, "Computer Associates Int'l License Server.")
    ∷ (217, "dBASE Unix.")
    ∷ (218, "MPP, Message Posting Protocol.")
    ∷ (219, "Unisys ARPs.")
    ∷ (220, "IMAP, Interactive Mail Access Protocol, version 3.")
    ∷ (221, "Berkeley rlogind with SPX auth.")
    ∷ (222, "Berkeley rshd with SPX auth.")
    ∷ (223, "Certificate Distribution Center. ")
    ∷ (242, "Direct.")
    ∷ (243, "Survey Measurement. ")
    ∷ (244, "Dayna.")
    ∷ (245, "LINK.")
    ∷ (246, "Display Systems Protocol. ")
    ∷ (247, "SUBNTBCST_TFTP.")
    ∷ (248, "bhfhs.")
    ∷ (256, "RAP.")
    ∷ (257, "Secure Electronic Transaction.")
    ∷ (258, "Yak Winsock Personal Chat.")
    ∷ (259, "ESRO, Efficient Short Remote Operations.")
    ∷ (260, "Openport.")
    ∷ (261, "IIOP Name Service over TLS/SSL.")
    ∷ (262, "Arcisdms.")
    ∷ (263, "HDAP.")
    ∷ (264, "BGMP, Border Gateway Multicast Protocol.")
    ∷ (265, "X-Bone CTL.")
    ∷ (266, "SCSI on ST.")
    ∷ (267, "Tobit David Service Layer.")
    ∷ (268, "Tobit David Replica.")
    ∷ (280, "http-mgmt.")
    ∷ (281, "Personal Link.")
    ∷ (282, "Cable Port A/X.")
    ∷ (283, "rescap.")
    ∷ (284, "corerjd.")
    ∷ (286, "FXP-1.")
    ∷ (287, "K-BLOCK.")
    ∷ (308, "Novastor Backup.")
    ∷ (309, "EntrustTime.")
    ∷ (310, "bhmds.")
    ∷ (311, "AppleShare IP WebAdmin.")
    ∷ (312, "VSLMP.")
    ∷ (313, "Magenta Logic.")
    ∷ (314, "Opalis Robot.")
    ∷ (315, "DPSI.")
    ∷ (316, "decAuth.")
    ∷ (317, "Zannet.")
    ∷ (318, "TSP, Time Stamp Protocol.")
    ∷ (319, "PTP Event.")
    ∷ (320, "PTP General.")
    ∷ (321, "PIP.")
    ∷ (322, "RTSPS.")
    ∷ (323, "IMMP, Internet Message Mapping Protocol.")
    ∷ (333, "Texar Security Port.")
    ∷ (344, "Prospero Data Access Protocol.")
    ∷ (345, "Performance Analysis Workbench.")
    ∷ (346, "Zebra server.")
    ∷ (347, "Fatmen Server.")
    ∷ (348, "Cabletron Management Protocol.")
    ∷ (349, "mftp.")
    ∷ (350, "MATIP, Mapping of Airline Traffic over Internet Protocol, Type A.")
    ∷ (351, "MATIP, Mapping of Airline Traffic over Internet Protocol, Type B. bhoetty.")
    ∷ (352, "DTAG.")
    ∷ (353, "NDSAUTH.")
    ∷ (354, "bh611.")
    ∷ (355, "DATEX-ASN.")
    ∷ (356, "Cloanto Net 1.")
    ∷ (357, "bhevent.")
    ∷ (358, "Shrinkwrap.")
    ∷ (359, "Tenebris Network Trace Service.")
    ∷ (360, "scoi2odialog.")
    ∷ (361, "Semantix.")
    ∷ (362, "SRS Send.")
    ∷ (363, "RSVP Tunnel.")
    ∷ (364, "Aurora CMGR.")
    ∷ (365, "DTK.")
    ∷ (366, "SMTP, Simple Mail Transfer Protocol. ODMR, On-Demand Mail Relay.")
    ∷ (367, "MortgageWare.")
    ∷ (368, "QbikGDP.")
    ∷ (369, "rpc2portmap. ")
    ∷ (370, "codaauth2.")
    ∷ (371, "Clearcase.")
    ∷ (372, "ListProcessor.")
    ∷ (373, "Legent Corporation.")
    ∷ []
